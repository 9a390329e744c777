-- ===== src/Ctype.antt =====
-- <ctype.h> in the "C" locale, which the JSON code of src/libopensrf calls on each byte.
use open_srf.Prelude.{ℕ, Bool, not, ◌&&◌, ◌||◌, leb, ◌==◌}

abbrev pub within : ℕ → ℕ → ℕ → Bool
within lo hi c = leb lo c && leb c hi

abbrev pub is_digit : ℕ → Bool
is_digit c = within b'0' b'9' c

unfoldable pub is_space : ℕ → Bool
is_space c = within 9 13 c || c == b' '

unfoldable pub is_xdigit : ℕ → Bool
is_xdigit c = is_digit c || within b'a' b'f' c || within b'A' b'F' c

unfoldable pub is_cntrl : ℕ → Bool
is_cntrl c = within 0 31 c || c == 127

unfoldable pub is_print : ℕ → Bool
is_print c = within 32 126 c

unfoldable pub is_alnum : ℕ → Bool
is_alnum c = is_digit c || within b'a' b'z' c || within b'A' b'Z' c

unfoldable pub is_punct : ℕ → Bool
unfolding is_print is_alnum
is_punct c = is_print c && not (c == b' ') && not (is_alnum c)
