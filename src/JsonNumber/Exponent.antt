-- ===== src/JsonNumber/Exponent.antt =====
-- Runs of digits and exponents, as `jsonIsNumeric` of src/libopensrf/osrf_json_object.c reads them.
use open_srf.Prelude.{
  ℕ, ◌≡◌, refl, ap, true, false, [], ◌∷◌, ◌++◌, arith, inl, inr, Bool-cases, Bytes,
}
use open_srf.Ctype.{is_digit}
use open_srf.JsonNumber.{
  is_end, is_exponent_mark, is_sign, skip_digits, starts_digit, exponent_digits, exponent,
}
use open_srf.JsonNumber.Grammar.{AllDigits, IsExp, no_exp, unsigned_exp, signed_exp}

-- Digits are skipped up to what does not begin with a digit.
pub skip_digits-append :
    (s rest : Bytes) → AllDigits s → starts_digit rest ≡ false → skip_digits (s ++ rest) ≡ rest
unfolding skip_digits
skip_digits-append [] [] a h = refl
skip_digits-append [] (c ∷ rest) a h = rw h
skip_digits-append (c ∷ s) rest a h = rw (a.0) (skip_digits-append s rest a.1 h)

-- Conversely, what is skipped is digits, and what is left begins with none.
pub record Skipped (s rest : Bytes) : Type 0 where
  pub front : Bytes
  pub all_digits : AllDigits front
  pub splits : s ≡ front ++ rest
  pub stops : starts_digit rest ≡ false

pub skip_digits-Skipped : (s : Bytes) → Skipped s (skip_digits s)
unfolding skip_digits
skip_digits-Skipped [] = record { front = []; all_digits = tt; splits = refl; stops = refl }
skip_digits-Skipped (c ∷ s) = elim (Bool-cases (is_digit c)) [
  | inl e ↦
      let r = skip_digits-Skipped s in
      rw e (record {
        front = c ∷ r.front;
        all_digits = (e, r.all_digits);
        splits = ap (◌∷◌ c) r.splits;
        stops = r.stops;
      })
  | inr e ↦ rw e (record { front = []; all_digits = tt; splits = refl; stops = e })
]

pub skip_digits-AllDigits : (s : Bytes) → AllDigits s → skip_digits s ≡ []
unfolding skip_digits
skip_digits-AllDigits [] a = refl
skip_digits-AllDigits (c ∷ s) a = rw (a.0) (skip_digits-AllDigits s a.1)

AllDigits-of_end : (s : Bytes) → is_end (skip_digits s) ≡ true → AllDigits s
unfolding skip_digits
AllDigits-of_end [] h = tt
AllDigits-of_end (c ∷ s) h = elim (Bool-cases (is_digit c)) [
  | inl e ↦ (e, AllDigits-of_end s (rw e at h))
  | inr e ↦ absurd (ground arith)
]

-- one digit or more, and nothing else
record Digits (s : Bytes) : Type 0 where
  first : ℕ
  more : Bytes
  splits : s ≡ first ∷ more
  first_digit : is_digit first ≡ true
  more_digits : AllDigits more

exponent_digits-Digits : (s : Bytes) → exponent_digits s ≡ true → Digits s
unfolding exponent_digits
exponent_digits-Digits [] h = absurd (ground arith)
exponent_digits-Digits (c ∷ s) h = elim (Bool-cases (is_digit c)) [
  | inl e ↦ record {
    first = c;
    more = s;
    splits = refl;
    first_digit = e;
    more_digits = AllDigits-of_end s (rw e at h);
  }
  | inr e ↦ absurd (ground arith)
]

Digits-exponent_digits :
    (c : ℕ) (s : Bytes) → is_digit c ≡ true → AllDigits s → exponent_digits (c ∷ s) ≡ true
unfolding exponent_digits
Digits-exponent_digits c s h a = rw (h, skip_digits-AllDigits s a)

-- a sign is no digit
pub digit_not_sign : (c : ℕ) → is_digit c ≡ true → is_sign c ≡ false
digit_not_sign c h = ground arith

pub exponent-IsExp : (s : Bytes) → exponent s ≡ true → IsExp s
unfolding exponent
exponent-IsExp [] h = no_exp
exponent-IsExp (c ∷ []) h = absurd (unfold exponent_digits in ground arith)
exponent-IsExp (c ∷ d ∷ s) h = elim (Bool-cases (is_exponent_mark c)) [
  | inr e ↦ absurd (ground arith)
  | inl e ↦ elim (Bool-cases (is_sign d)) [
    | inl g ↦
        let k = exponent_digits-Digits s (rw (e, g) at h) in
        rw k.splits (signed_exp c d k.first k.more e g k.first_digit k.more_digits)
    | inr g ↦
        let k = exponent_digits-Digits (d ∷ s) (rw (e, g) at h) in
        rw k.splits (unsigned_exp c k.first k.more e k.first_digit k.more_digits)
  ]
]

pub IsExp-exponent : {s : Bytes} → IsExp s → exponent s ≡ true
unfolding exponent
IsExp-exponent no_exp = refl
IsExp-exponent (unsigned_exp e c s m d a) =
    rw (m, digit_not_sign c d) (Digits-exponent_digits c s d a)
IsExp-exponent (signed_exp e sign c s m g d a) = rw (m, g) (Digits-exponent_digits c s d a)
