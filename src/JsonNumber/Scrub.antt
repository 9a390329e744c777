-- ===== src/JsonNumber/Scrub.antt =====
-- `jsonScrubNumber` of src/libopensrf/osrf_json_object.c, on texts with something in front of the
-- number and on texts of zeros.
use open_srf.Prelude.{
  ℕ, zero, suc, ◌≡◌, refl, ◌∙◌, ap, ◌≢◌, true, false, some, [], ◌∷◌, ◌++◌, arith, Bytes, append-nil,
  append_assoc, replicate,
}
use open_srf.Ctype.{is_digit, is_space}
use open_srf.JsonNumber.{
  starts_digit, take_digits, skip_spaces, skip_zeros, scrub_exponent_digits, scrub_exponent,
  scrub_fraction, scrub_after_integer, scrub_integer, scrub_unsigned, scrub_sign, scrub_number,
  is_numeric,
}
use open_srf.JsonNumber.Grammar.{
  AllDigits, IsFrac, no_frac, frac, IsExp, no_exp, unsigned_exp, signed_exp, digits, IsUnsigned,
  unsigned, negative,
}
use open_srf.JsonNumber.Exponent.{skip_digits-append, skip_digits-AllDigits, digit_not_sign}
use open_srf.JsonNumber.Decide.{is_numeric_iff, mark_not_dot, IsExp-starts_digit, tail-starts_digit}

take_digits-append :
    (s rest : Bytes) → AllDigits s → starts_digit rest ≡ false → take_digits (s ++ rest) ≡ s
unfolding take_digits
take_digits-append [] [] a h = refl
take_digits-append [] (c ∷ rest) a h = rw h
take_digits-append (c ∷ s) rest a h = rw (a.0) (ap (◌∷◌ c) (take_digits-append s rest a.1 h))

take_digits-AllDigits : (s : Bytes) → AllDigits s → take_digits s ≡ s
unfolding take_digits
take_digits-AllDigits [] a = refl
take_digits-AllDigits (c ∷ s) a = rw (a.0) (ap (◌∷◌ c) (take_digits-AllDigits s a.1))

scrub_exponent_digits_lem :
    (buf s : Bytes) → AllDigits s → scrub_exponent_digits buf s ≡ some (buf ++ s)
unfolding scrub_exponent_digits
scrub_exponent_digits_lem buf s a = rw (take_digits-AllDigits s a, skip_digits-AllDigits s a)

-- An exponent is copied.
scrub_exponent_lem : {s : Bytes} (buf : Bytes) → IsExp s → scrub_exponent buf s ≡ some (buf ++ s)
unfolding scrub_exponent
scrub_exponent_lem buf no_exp = rw append-nil
scrub_exponent_lem buf (unsigned_exp e c s m d a) =
    rw (m, digit_not_sign c d)
      (scrub_exponent_digits_lem (buf ++ e ∷ []) (c ∷ s) (d, a)
        ∙ ap some (append_assoc buf (e ∷ []) (c ∷ s)))
scrub_exponent_lem buf (signed_exp e sign c s m g d a) =
    rw (m, g)
      (scrub_exponent_digits_lem (buf ++ e ∷ sign ∷ []) (c ∷ s) (d, a)
        ∙ ap some (append_assoc buf (e ∷ sign ∷ []) (c ∷ s)))

-- So are a fraction and an exponent behind an integer part.
scrub_after_integer_lem :
    {f e : Bytes} (buf : Bytes)
    → IsFrac f
    → IsExp e
    → scrub_after_integer buf true (f ++ e) ≡ some (buf ++ (f ++ e))
unfolding scrub_after_integer scrub_fraction
scrub_after_integer_lem buf no_frac no_exp = rw append-nil
scrub_after_integer_lem buf no_frac (unsigned_exp e c s m d a) =
    rw ((mark_not_dot e m).0, m) (rw m at (scrub_exponent_lem buf (unsigned_exp e c s m d a)))
scrub_after_integer_lem buf no_frac (signed_exp e sign c s m g d a) =
    rw ((mark_not_dot e m).0, m) (rw m at (scrub_exponent_lem buf (signed_exp e sign c s m g d a)))
scrub_after_integer_lem {e = x} buf (frac c s d a) h =
    rw
      (
        take_digits-append (c ∷ s) x (d, a) (IsExp-starts_digit h),
        skip_digits-append (c ∷ s) x (d, a) (IsExp-starts_digit h),
      )
      (scrub_exponent_lem (buf ++ b'.' ∷ c ∷ s) h ∙ ap some (append_assoc buf (b'.' ∷ c ∷ s) x))

skip_zeros-replicate :
    (k c : ℕ) (s : Bytes) → c ≢ b'0' → skip_zeros (replicate k b'0' ++ (c ∷ s)) ≡ c ∷ s
unfolding skip_zeros
skip_zeros-replicate zero c s h = ground arith
skip_zeros-replicate (suc k) c s h = skip_zeros-replicate k c s h

module _ (k c : ℕ) (s f e : Bytes) (digit : is_digit c ≡ true) (not_zero : c ≢ b'0')
    (more : AllDigits s) (is_frac : IsFrac f) (is_exp : IsExp e) where
  scrub_integer_lem :
      (buf : Bytes) → scrub_integer buf (c ∷ (s ++ (f ++ e))) ≡ some (buf ++ (c ∷ (s ++ (f ++ e))))
  unfolding scrub_integer
  scrub_integer_lem buf =
      rw
        (
          digit,
          take_digits-append s (f ++ e) more (tail-starts_digit is_frac is_exp),
          skip_digits-append s (f ++ e) more (tail-starts_digit is_frac is_exp),
        )
        (scrub_after_integer_lem (buf ++ c ∷ s) is_frac is_exp
          ∙ ap some (append_assoc buf (c ∷ s) (f ++ e)))

  scrub_unsigned_lem :
      (buf : Bytes)
      → scrub_unsigned buf (replicate k b'0' ++ (c ∷ (s ++ (f ++ e))))
        ≡ some (buf ++ (c ∷ (s ++ (f ++ e))))
  scrub_unsigned_lem buf =
      nonempty k ∙ rw (skip_zeros-replicate k c (s ++ (f ++ e)) not_zero) (scrub_integer_lem buf)
    where
      nonempty :
          (n : ℕ)
          → scrub_unsigned buf (replicate n b'0' ++ (c ∷ (s ++ (f ++ e))))
            ≡ scrub_integer buf (skip_zeros (replicate n b'0' ++ (c ∷ (s ++ (f ++ e)))))
      nonempty zero = unfold scrub_unsigned in refl
      nonempty (suc n) = unfold scrub_unsigned in refl

-- every byte is white space
abbrev pub AllSpaces : Bytes → Type 0
AllSpaces [] = Unit {0}
AllSpaces (c ∷ w) = (is_space c ≡ true) × AllSpaces w

skip_spaces-append :
    (w : Bytes) (c : ℕ) (s : Bytes)
    → AllSpaces w
    → is_space c ≡ false
    → skip_spaces (w ++ (c ∷ s)) ≡ c ∷ s
unfolding skip_spaces
skip_spaces-append [] c s a h = rw h
skip_spaces-append (d ∷ w) c s a h = rw (a.0) (skip_spaces-append w c s a.1 h)

scrub_number_spaces :
    (w : Bytes) (c : ℕ) (s : Bytes)
    → AllSpaces w
    → is_space c ≡ false
    → scrub_number (w ++ (c ∷ s)) ≡ scrub_sign (c ∷ s)
unfolding scrub_number
scrub_number_spaces [] c s a h = ap scrub_sign (skip_spaces-append [] c s a h)
scrub_number_spaces (d ∷ w) c s a h = ap scrub_sign (skip_spaces-append (d ∷ w) c s a h)

-- White space, a plus sign and any number of zeros in front of an integer part that does not begin
-- with a zero, an optional fraction and an optional exponent: `jsonScrubNumber` takes away what is
-- in front, and what it returns is a number for `jsonIsNumeric`. With a minus sign in place of the
-- plus sign the result begins with the minus sign.
pub scrub_number_leading :
    (w : Bytes) (k c : ℕ) (s f e : Bytes)
    → AllSpaces w
    → is_digit c ≡ true
    → c ≢ b'0'
    → AllDigits s
    → IsFrac f
    → IsExp e
    → let n = c ∷ (s ++ (f ++ e)) in
      (scrub_number (w ++ (b'+' ∷ (replicate k b'0' ++ n))) ≡ some n)
      × (is_numeric n ≡ true)
      × (scrub_number (w ++ (b'-' ∷ (replicate k b'0' ++ n))) ≡ some (b'-' ∷ n))
      × (is_numeric (b'-' ∷ n) ≡ true)
scrub_number_leading w k c s f e a d z m g x =
    let n = c ∷ (s ++ (f ++ e)) in
    let u : IsUnsigned n = record {
      int = c ∷ s;
      fraction = f;
      exponent = e;
      is_int = digits c s d z m;
      is_frac = g;
      is_exp = x;
      joined = refl;
    } in
    (
      scrub_number_spaces w b'+' _ a (unfold is_space in refl)
          ∙ (unfold scrub_sign in scrub_unsigned_lem k c s f e d z m g x []),
      (is_numeric_iff n).1 (unsigned u),
      scrub_number_spaces w b'-' _ a (unfold is_space in refl)
          ∙ (unfold scrub_sign in scrub_unsigned_lem k c s f e d z m g x (b'-' ∷ [])),
      (is_numeric_iff (b'-' ∷ n)).1 (negative u),
    )

skip_zeros-AllZeros : (k : ℕ) → skip_zeros (replicate k b'0') ≡ []
unfolding skip_zeros
skip_zeros-AllZeros zero = refl
skip_zeros-AllZeros (suc k) = skip_zeros-AllZeros k

-- Of zeros alone, however many, `jsonScrubNumber` makes the empty text, which `jsonIsNumeric`
-- refuses; of zeros before an exponent of "e" and one digit it makes a number with the factor 1.
pub scrub_number_zeros :
    (k d : ℕ)
    → is_digit d ≡ true
    → (scrub_number (replicate (suc k) b'0') ≡ some [])
      × (is_numeric [] ≡ false)
      × (scrub_number (replicate (suc k) b'0' ++ (b'e' ∷ d ∷ [])) ≡ some (b'1' ∷ b'e' ∷ d ∷ []))
unfolding scrub_number scrub_sign scrub_unsigned skip_spaces
scrub_number_zeros k d h = (
  rw (skip_zeros-AllZeros k) (unfold scrub_integer in refl),
  unfold is_numeric in refl,
  rw (skip_zeros-replicate k b'e' (d ∷ []) (omega arith)) (unfold scrub_integer in ground arith),
)
