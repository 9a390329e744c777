-- ===== src/JsonNumber.antt =====
-- `jsonIsNumeric` and `jsonScrubNumber` of src/libopensrf/osrf_json_object.c.
-- The pointer that walks the text is the rest of the text; the closing nul is its end.
pub mod Grammar
pub mod Exponent
pub mod Decide
pub mod Scrub
mod Tests
use open_srf.Prelude.{
  ℕ, Bool, true, false, ◌||◌, Option, none, some, List, [], ◌∷◌, ◌++◌, ◌==◌, if◌then◌else◌, Bytes,
}
use open_srf.Ctype.{is_digit, is_space}

abbrev pub is_exponent_mark : ℕ → Bool
is_exponent_mark c = c == b'e' || c == b'E'

abbrev pub is_sign : ℕ → Bool
is_sign c = c == b'-' || c == b'+'

-- `while( isdigit( *p ) ) ++p;`
unfoldable pub skip_digits : Bytes → Bytes
skip_digits [] = []
skip_digits (c ∷ s) = let rest = skip_digits s in if is_digit c then rest else c ∷ s

-- Whether the text begins with a digit.
abbrev pub starts_digit : Bytes → Bool
starts_digit [] = false
starts_digit (c ∷ s) = is_digit c

abbrev pub is_end : Bytes → Bool
is_end [] = true
is_end (c ∷ s) = false

-- lines 1129 to 1141
unfoldable pub exponent_digits : Bytes → Bool
unfolding skip_digits
exponent_digits [] = false
exponent_digits (c ∷ s) = if is_digit c then is_end (skip_digits s) else false

-- lines 1114 to 1125
unfoldable pub exponent : Bytes → Bool
unfolding exponent_digits
exponent [] = true
exponent (c ∷ []) = if is_exponent_mark c then exponent_digits [] else false
exponent (c ∷ d ∷ s) =
    if is_exponent_mark c
    then (if is_sign d then exponent_digits s else exponent_digits (d ∷ s))
    else false

-- lines 1104 to 1111
unfoldable pub fraction : Bytes → Bool
unfolding exponent
fraction [] = false
fraction (c ∷ s) = if is_digit c then exponent (skip_digits s) else false

-- lines 1094 to 1099
unfoldable pub after_integer : Bytes → Bool
unfolding fraction
after_integer [] = true
after_integer (c ∷ s) = if c == b'.' then fraction s else exponent (c ∷ s)

-- lines 1075 to 1092
unfoldable pub unsigned_numeric : Bytes → Bool
unfolding after_integer
unsigned_numeric [] = false
unsigned_numeric (c ∷ s) =
    if is_digit c
    then (if c == b'0'
        then (if starts_digit s then false else after_integer s)
        else after_integer (skip_digits s))
    else false

-- `jsonIsNumeric`
unfoldable pub is_numeric : Bytes → Bool
unfolding unsigned_numeric
is_numeric [] = false
is_numeric (c ∷ s) = if c == b'-' then unsigned_numeric s else unsigned_numeric (c ∷ s)

-- `while( isspace( *s ) ) ++s;`
unfoldable pub skip_spaces : Bytes → Bytes
unfolding is_space
skip_spaces [] = []
skip_spaces (c ∷ s) = let rest = skip_spaces s in if is_space c then rest else c ∷ s

-- `while( '0' == *s ) ++s;`
unfoldable pub skip_zeros : Bytes → Bytes
skip_zeros [] = []
skip_zeros (c ∷ s) = let rest = skip_zeros s in if c == b'0' then rest else c ∷ s

-- the digits that `while( isdigit( *s ) ) buffer_add_char( buf, *s++ );` copies
unfoldable pub take_digits : Bytes → Bytes
take_digits [] = []
take_digits (c ∷ s) = let rest = take_digits s in if is_digit c then c ∷ rest else []

-- lines 1274 to 1284: the digits of the exponent are copied, and nothing may follow them
unfoldable pub scrub_exponent_digits : Bytes → Bytes → Option Bytes
unfolding take_digits skip_digits
scrub_exponent_digits buf s = if is_end (skip_digits s) then some (buf ++ take_digits s) else none

-- lines 1253 to 1270
unfoldable pub scrub_exponent : Bytes → Bytes → Option Bytes
unfolding scrub_exponent_digits
scrub_exponent buf [] = some buf
scrub_exponent buf (c ∷ []) =
    if is_exponent_mark c then scrub_exponent_digits (buf ++ c ∷ []) [] else none
scrub_exponent buf (c ∷ d ∷ s) =
    if is_exponent_mark c
    then (if is_sign d
        then scrub_exponent_digits (buf ++ c ∷ d ∷ []) s
        else scrub_exponent_digits (buf ++ c ∷ []) (d ∷ s))
    else none

-- lines 1211 to 1234: behind the decimal point
unfoldable pub scrub_fraction : Bytes → Bool → Bytes → Option Bytes
unfolding scrub_exponent take_digits skip_digits
scrub_fraction buf true s = scrub_exponent (buf ++ b'.' ∷ take_digits s) (skip_digits s)
scrub_fraction buf false s =
    if starts_digit s
    then scrub_exponent (buf ++ b'0' ∷ b'.' ∷ take_digits s) (skip_digits s)
    else none

-- lines 1207 to 1251; the flag is `left_digit`
unfoldable pub scrub_after_integer : Bytes → Bool → Bytes → Option Bytes
unfolding scrub_fraction
scrub_after_integer buf left_digit [] = some buf
scrub_after_integer buf left_digit (c ∷ s) =
    if c == b'.'
    then scrub_fraction buf left_digit s
    else if is_exponent_mark c
    then scrub_exponent (if left_digit then buf else buf ++ b'1' ∷ []) (c ∷ s)
    else none

-- lines 1189 to 1202, on a text without its leading zeros
unfoldable pub scrub_integer : Bytes → Bytes → Option Bytes
unfolding scrub_after_integer
scrub_integer buf s = scrub_after_integer (buf ++ take_digits s) (starts_digit s) (skip_digits s)

-- lines 1181 to 1189
unfoldable pub scrub_unsigned : Bytes → Bytes → Option Bytes
unfolding scrub_integer skip_zeros
scrub_unsigned buf [] = none
scrub_unsigned buf (c ∷ s) = scrub_integer buf (skip_zeros (c ∷ s))

-- lines 1173 to 1179
unfoldable pub scrub_sign : Bytes → Option Bytes
unfolding scrub_unsigned
scrub_sign [] = none
scrub_sign (c ∷ s) =
    if c == b'-'
    then scrub_unsigned (b'-' ∷ []) s
    else if c == b'+'
    then scrub_unsigned [] s
    else scrub_unsigned [] (c ∷ s)

-- `jsonScrubNumber`
unfoldable pub scrub_number : Bytes → Option Bytes
unfolding scrub_sign skip_spaces
scrub_number [] = none
scrub_number (c ∷ s) = scrub_sign (skip_spaces (c ∷ s))
