-- ===== src/JsonNumber/Grammar.antt =====
-- The JSON grammar of numbers (RFC 4627, section 2.4), which says nothing of how one is read.
use open_srf.Prelude.{ℕ, ◌≡◌, ◌≢◌, true, [], ◌∷◌, ◌++◌, Bytes}
use open_srf.Ctype.{is_digit}
use open_srf.JsonNumber.{is_exponent_mark, is_sign}

-- every byte is a digit
abbrev pub AllDigits : Bytes → Type 0
AllDigits [] = Unit {0}
AllDigits (c ∷ s) = (is_digit c ≡ true) × AllDigits s

-- int = zero / ( digit1-9 *DIGIT )
pub data IsInt : Bytes → Type 0 where
  zero_digit : IsInt (b'0' ∷ [])
  digits : (c : ℕ) (s : Bytes) → is_digit c ≡ true → c ≢ b'0' → AllDigits s → IsInt (c ∷ s)

-- [ frac ], frac = decimal-point 1*DIGIT
pub data IsFrac : Bytes → Type 0 where
  no_frac : IsFrac []
  frac : (c : ℕ) (s : Bytes) → is_digit c ≡ true → AllDigits s → IsFrac (b'.' ∷ c ∷ s)

-- [ exp ], exp = e [ minus / plus ] 1*DIGIT
pub data IsExp : Bytes → Type 0 where
  no_exp : IsExp []
  unsigned_exp :
      (e c : ℕ) (s : Bytes)
      → is_exponent_mark e ≡ true
      → is_digit c ≡ true
      → AllDigits s
      → IsExp (e ∷ c ∷ s)
  signed_exp :
      (e sign c : ℕ) (s : Bytes)
      → is_exponent_mark e ≡ true
      → is_sign sign ≡ true
      → is_digit c ≡ true
      → AllDigits s
      → IsExp (e ∷ sign ∷ c ∷ s)

-- number = [ minus ] int [ frac ] [ exp ]
pub record IsUnsigned (s : Bytes) : Type 0 where
  pub int : Bytes
  pub fraction : Bytes
  pub exponent : Bytes
  pub is_int : IsInt int
  pub is_frac : IsFrac fraction
  pub is_exp : IsExp exponent
  pub joined : s ≡ int ++ (fraction ++ exponent)

pub data IsNumber : Bytes → Type 0 where
  unsigned : {s : Bytes} → IsUnsigned s → IsNumber s
  negative : {s : Bytes} → IsUnsigned s → IsNumber (b'-' ∷ s)
