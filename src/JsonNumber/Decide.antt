-- ===== src/JsonNumber/Decide.antt =====
-- `jsonIsNumeric` of src/libopensrf/osrf_json_object.c against the grammar of JSON numbers.
use open_srf.Prelude.{
  ℕ, ◌≡◌, refl, ap, ◌↔◌, true, false, [], ◌∷◌, ◌++◌, ◌==◌, arith, inl, inr, Bool-cases, Bytes,
}
use open_srf.Ctype.{is_digit}
use open_srf.JsonNumber.{
  is_exponent_mark, skip_digits, starts_digit, fraction, after_integer, unsigned_numeric,
  is_numeric,
}
use open_srf.JsonNumber.Grammar.{
  IsInt, zero_digit, digits, IsFrac, no_frac, frac, IsExp, no_exp, unsigned_exp, signed_exp,
  IsUnsigned, IsNumber, unsigned, negative,
}
use open_srf.JsonNumber.Exponent.{
  skip_digits-append, skip_digits-Skipped, exponent-IsExp, IsExp-exponent,
}

-- What may follow the integer part: a fraction, then an exponent.
record Tail (s : Bytes) : Type 0 where
  fraction : Bytes
  exponent : Bytes
  is_frac : IsFrac fraction
  is_exp : IsExp exponent
  joined : s ≡ fraction ++ exponent

fraction-Tail : (s : Bytes) → fraction s ≡ true → Tail (b'.' ∷ s)
unfolding fraction
fraction-Tail [] h = absurd (ground arith)
fraction-Tail (d ∷ s) h = elim (Bool-cases (is_digit d)) [
  | inl e ↦
      let k = skip_digits-Skipped s in
      record {
        fraction = b'.' ∷ d ∷ k.front;
        exponent = skip_digits s;
        is_frac = frac d k.front e k.all_digits;
        is_exp = exponent-IsExp (skip_digits s) (rw e at h);
        joined = ap (λ t. b'.' ∷ d ∷ t) k.splits;
      }
  | inr e ↦ absurd (ground arith)
]

after_integer-Tail : (s : Bytes) → after_integer s ≡ true → Tail s
unfolding after_integer
after_integer-Tail [] h = record {
  fraction = [];
  exponent = [];
  is_frac = no_frac;
  is_exp = no_exp;
  joined = refl;
}
after_integer-Tail (c ∷ s) h = elim (Bool-cases (c == b'.')) [
  | inl e ↦ let dot : c ≡ b'.' = ground arith in rw dot (fraction-Tail s (rw e at h))
  | inr e ↦ record {
    fraction = [];
    exponent = c ∷ s;
    is_frac = no_frac;
    is_exp = exponent-IsExp (c ∷ s) (rw e at h);
    joined = refl;
  }
]

pub mark_not_dot :
    (e : ℕ) → is_exponent_mark e ≡ true → ((e == b'.') ≡ false) × (is_digit e ≡ false)
mark_not_dot e h = ground arith

pub IsExp-starts_digit : {s : Bytes} → IsExp s → starts_digit s ≡ false
IsExp-starts_digit no_exp = refl
IsExp-starts_digit (unsigned_exp e c s m d a) = (mark_not_dot e m).1
IsExp-starts_digit (signed_exp e sign c s m g d a) = (mark_not_dot e m).1

pub tail-starts_digit : {f e : Bytes} → IsFrac f → IsExp e → starts_digit (f ++ e) ≡ false
tail-starts_digit no_frac x = IsExp-starts_digit x
tail-starts_digit (frac c s d a) x = refl

tail-after_integer : {f e : Bytes} → IsFrac f → IsExp e → after_integer (f ++ e) ≡ true
unfolding after_integer fraction
tail-after_integer no_frac no_exp = refl
tail-after_integer no_frac (unsigned_exp e c s m d a) =
    rw ((mark_not_dot e m).0) (IsExp-exponent (unsigned_exp e c s m d a))
tail-after_integer no_frac (signed_exp e sign c s m g d a) =
    rw ((mark_not_dot e m).0) (IsExp-exponent (signed_exp e sign c s m g d a))
tail-after_integer {e = x} (frac c s d a) h =
    rw (d, skip_digits-append s x a (IsExp-starts_digit h)) (IsExp-exponent h)

from_Tail : (int : Bytes) {s : Bytes} → IsInt int → Tail s → IsUnsigned (int ++ s)
from_Tail int i t = record {
  int = int;
  fraction = t.fraction;
  exponent = t.exponent;
  is_int = i;
  is_frac = t.is_frac;
  is_exp = t.is_exp;
  joined = ap (◌++◌ int) t.joined;
}

unsigned_numeric-IsUnsigned : (s : Bytes) → unsigned_numeric s ≡ true → IsUnsigned s
unfolding unsigned_numeric
unsigned_numeric-IsUnsigned [] h = absurd (ground arith)
unsigned_numeric-IsUnsigned (c ∷ s) h = elim (Bool-cases (is_digit c)) [
  | inr d ↦ absurd (ground arith)
  | inl d ↦ elim (Bool-cases (c == b'0')) [
    | inl z ↦
        let e : c ≡ b'0' = ground arith in
        rw e (from_Tail (b'0' ∷ []) zero_digit (after_integer-Tail s (ground arith)))
    | inr z ↦
        let k = skip_digits-Skipped s in
        let t = after_integer-Tail (skip_digits s) (rw (d, z) at h) in
        rw k.splits
          (from_Tail (c ∷ k.front) (digits c k.front d (λ e. ground arith) k.all_digits) t)
  ]
]

IsUnsigned-numeric : {s : Bytes} → IsUnsigned s → unsigned_numeric s ≡ true
unfolding unsigned_numeric
IsUnsigned-numeric u = rw u.joined (by_int u.is_int)
  where
    by_int : {i : Bytes} → IsInt i → unsigned_numeric (i ++ (u.fraction ++ u.exponent)) ≡ true
    by_int zero_digit =
        rw (tail-starts_digit u.is_frac u.is_exp) (tail-after_integer u.is_frac u.is_exp)
    by_int (digits c s d z a) =
        let nz : (c == b'0') ≡ false = ground arith in
        rw
          (
            d,
            nz,
            skip_digits-append s (u.fraction ++ u.exponent) a
                (tail-starts_digit u.is_frac u.is_exp),
          )
          (tail-after_integer u.is_frac u.is_exp)

unsigned_no_minus : (c : ℕ) (s : Bytes) → unsigned_numeric (c ∷ s) ≡ true → (c == b'-') ≡ false
unfolding unsigned_numeric
unsigned_no_minus c s h = ground arith

-- `jsonIsNumeric` accepts exactly the texts that the JSON grammar derives as numbers.
pub is_numeric_iff : (s : Bytes) → (is_numeric s ≡ true) ↔ IsNumber s
unfolding is_numeric
is_numeric_iff s = (accepted s, derived)
  where
    accepted : (s : Bytes) → is_numeric s ≡ true → IsNumber s
    accepted [] h = absurd (ground arith)
    accepted (c ∷ s) h = elim (Bool-cases (c == b'-')) [
      | inl e ↦
          let m : c ≡ b'-' = ground arith in
          rw m (negative (unsigned_numeric-IsUnsigned s (rw e at h)))
      | inr e ↦ unsigned (unsigned_numeric-IsUnsigned (c ∷ s) (rw e at h))
    ]

    plain : (s : Bytes) → unsigned_numeric s ≡ true → is_numeric s ≡ true
    plain [] h = h
    plain (c ∷ s) h = rw (unsigned_no_minus c s h) h

    derived : {s : Bytes} → IsNumber s → is_numeric s ≡ true
    derived (unsigned {s = t} u) = plain t (IsUnsigned-numeric u)
    derived (negative u) = IsUnsigned-numeric u
