-- ===== src/JsonNumber/Tests.antt =====
-- Runs of `jsonIsNumeric` and `jsonScrubNumber` of src/libopensrf/osrf_json_object.c, and their
-- theorems at concrete texts.
use open_srf.Prelude.{◌≡◌, ◌↔◌, refl, true, false, some, [], ◌∷◌, Bytes}
use open_srf.JsonNumber.{is_numeric, scrub_number, scrub_sign, scrub_unsigned, scrub_integer}
use open_srf.JsonNumber.Grammar.{IsNumber}
use open_srf.JsonNumber.Decide.{is_numeric_iff}
use open_srf.JsonNumber.Scrub.{scrub_number_zeros}

-- "-10.5e+3"
abbrev text : Bytes
text = b'-' ∷ b'1' ∷ b'0' ∷ b'.' ∷ b'5' ∷ b'e' ∷ b'+' ∷ b'3' ∷ []

is_numeric_test : is_numeric text ≡ true
unfolding is_numeric
is_numeric_test = refl

-- "01" is no number.
is_numeric_zero_test : is_numeric (b'0' ∷ b'1' ∷ []) ≡ false
unfolding is_numeric
is_numeric_zero_test = refl

-- " .5" becomes "0.5".
scrub_number_test : scrub_number (b' ' ∷ b'.' ∷ b'5' ∷ []) ≡ some (b'0' ∷ b'.' ∷ b'5' ∷ [])
unfolding scrub_number scrub_sign scrub_unsigned scrub_integer
scrub_number_test = refl

-- "1." is taken as it is.
scrub_number_dot_test : scrub_number (b'1' ∷ b'.' ∷ []) ≡ some (b'1' ∷ b'.' ∷ [])
unfolding scrub_number scrub_sign scrub_unsigned scrub_integer
scrub_number_dot_test = refl

is_numeric_iff_example : (is_numeric text ≡ true) ↔ IsNumber text
is_numeric_iff_example = is_numeric_iff text

-- "00" and "00e5"
scrub_number_zeros_example :
    (scrub_number (b'0' ∷ b'0' ∷ []) ≡ some [])
    × (is_numeric [] ≡ false)
    × (scrub_number (b'0' ∷ b'0' ∷ b'e' ∷ b'5' ∷ []) ≡ some (b'1' ∷ b'e' ∷ b'5' ∷ []))
scrub_number_zeros_example = scrub_number_zeros 1 b'5' refl
