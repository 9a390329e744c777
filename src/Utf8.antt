-- ===== src/Utf8.antt =====
-- src/libopensrf/osrf_utf8.c: UTF-8 text is escaped for a JSON string.
-- The growing buffer is the list of the bytes that are appended; the text is its bytes before the
-- nul. Where a bit operation only moves or masks bits it is written with * / and %, and `|` of
-- disjoint bits as a sum. `i` is not bounded.
pub mod Scans
pub mod Reading
pub mod RoundTrip
mod Tests
use open_srf.Prelude.{
  ℕ, ◌+◌, ◌-◌, ◌*◌, ◌/◌, ◌%◌, Bool, [], ◌∷◌, ◌++◌, leb, ltb, ◌==◌, if◌then◌else◌, Bytes,
}

-- `osrf_utf8_mask_`, by its ranges of equal entries
unfoldable pub mask : ℕ → ℕ
mask c =
    if leb c 31
    then 193
    else if leb c 126
    then 194
    else if leb c 127
    then 193
    else if leb c 191
    then 132
    else if leb c 193
    then 0
    else if leb c 223
    then 200
    else if leb c 239
    then 208
    else if leb c 244
    then 224
    else 0

-- a bit of the mask of a byte
unfoldable pub has : ℕ → ℕ → Bool
unfolding mask
has bit c = mask (c % 256) / bit % 2 == 1

abbrev pub print_bit : ℕ
print_bit = 0x02

abbrev pub continue_bit : ℕ
continue_bit = 0x04

abbrev pub two_byte_bit : ℕ
two_byte_bit = 0x08

abbrev pub three_byte_bit : ℕ
three_byte_bit = 0x10

abbrev pub four_byte_bit : ℕ
four_byte_bit = 0x20

abbrev pub sync_bit : ℕ
sync_bit = 0x40

-- a character of `hex_chars`, at an index below 16
unfoldable pub hex_char : ℕ → ℕ
hex_char d = if ltb d 10 then b'0' + d else b'a' + (d - 10)

unfoldable pub append_uxxxx : ℕ → Bytes
unfolding hex_char
append_uxxxx i =
    b'\\'
    ∷ b'u'
    ∷ hex_char (i / 0x1000 % 16)
    ∷ hex_char (i / 0x100 % 16)
    ∷ hex_char (i / 0x10 % 16)
    ∷ hex_char (i % 16)
    ∷ []

unfoldable pub append_surrogate_pair : ℕ → Bytes
append_surrogate_pair code =
    append_uxxxx (0xd7c0 + code / 0x400) ++ append_uxxxx (0xdc00 + code % 0x400)

-- what is appended for a byte below 0x80
unfoldable pub append_ascii : ℕ → Bytes
append_ascii c =
    if has print_bit c
    then (if c == b'"' then b'\\' ∷ c ∷ [] else if c == b'\\' then b'\\' ∷ c ∷ [] else c ∷ [])
    else if c == b'\n'
    then b'\\' ∷ b'n' ∷ []
    else if c == b'\t'
    then b'\\' ∷ b't' ∷ []
    else if c == b'\r'
    then b'\\' ∷ b'r' ∷ []
    else if c == 12
    then b'\\' ∷ b'f' ∷ []
    else if c == 8
    then b'\\' ∷ b'b' ∷ []
    else append_uxxxx c

-- what is appended for a character of several bytes
unfoldable pub append_char : ℕ → Bytes
append_char code = if ltb 0xffff code then append_surrogate_pair code else append_uxxxx code

-- `utf8_state`, without the state in which the loop ends: there the text has ended
pub data ScanState : Type 0 where
  s_begin s_2_of_2 s_2_of_3 s_3_of_3 s_2_of_4 s_3_of_4 s_4_of_4 s_error : ScanState

-- the variables of `buffer_append_utf8`
pub record Scan : Type 0 where
  pub state : ScanState
  pub utf8_char : ℕ
  pub rc : ℕ
  pub buf : Bytes

-- `if( 0 == rc ) rc = i;`
unfoldable pub note : ℕ → Scan → Scan
note i v = record v { rc = if v.rc == 0 then i else v.rc }

-- The state S_BEGIN at a byte. The code takes a run of ASCII in one inner loop.
unfoldable pub begin_byte : ℕ → ℕ → Scan → Scan
begin_byte c i v =
    if ltb c 0x80
    then record v { state = s_begin; buf = v.buf ++ append_ascii c }
    else if has two_byte_bit c
    then record v { state = s_2_of_2; utf8_char = c - 0xc0 }
    else if has three_byte_bit c
    then record v { state = s_2_of_3; utf8_char = c - 0xe0 }
    else if has four_byte_bit c
    then record v { state = s_2_of_4; utf8_char = c - 0xf0 }
    else record (note i v) { state = s_error }

-- `(utf8_char << 6) | (s[i] & 0x3F)`
unfoldable pub join : ℕ → ℕ → ℕ
join code c = code * 0x40 + c % 0x40

-- A continuation byte in the state before; else the byte is read again in the state S_BEGIN.
unfoldable pub continue_byte : (Scan → Scan) → ℕ → ℕ → Scan → Scan
continue_byte next c i v =
    if has continue_bit c
    then next (record v { utf8_char = join v.utf8_char c })
    else begin_byte c i (note i v)

-- The iterations of the loop at one byte: those at which `i` stays are taken together.
unfoldable pub scan_byte : ScanState → ℕ → ℕ → Scan → Scan
scan_byte s_begin c i v = begin_byte c i v
scan_byte s_2_of_2 c i v =
    continue_byte (λ w. record w { state = s_begin; buf = w.buf ++ append_uxxxx w.utf8_char }) c i v
scan_byte s_2_of_3 c i v = continue_byte (λ w. record w { state = s_3_of_3 }) c i v
scan_byte s_3_of_3 c i v =
    continue_byte (λ w. record w { state = s_begin; buf = w.buf ++ append_char w.utf8_char }) c i v
scan_byte s_2_of_4 c i v = continue_byte (λ w. record w { state = s_3_of_4 }) c i v
scan_byte s_3_of_4 c i v = continue_byte (λ w. record w { state = s_4_of_4 }) c i v
scan_byte s_4_of_4 c i v =
    continue_byte (λ w. record w { state = s_begin; buf = w.buf ++ append_char w.utf8_char }) c i v
scan_byte s_error c i v = if has sync_bit c then begin_byte c i v else v

-- the nul
unfoldable pub scan_end : ScanState → ℕ → Scan → Scan
unfolding note
scan_end s_begin i v = v
scan_end s_error i v = v
scan_end _ i v = note i v

-- the loop, from the index `i`
unfoldable pub scan : Bytes → ℕ → Scan → Scan
scan [] i v = scan_end v.state i v
scan (c ∷ s) i v = scan s (i + 1) (scan_byte v.state c i v)

-- `buffer_append_utf8`: the return code and the bytes that are appended
unfoldable pub buffer_append_utf8 : Bytes → ℕ × Bytes
buffer_append_utf8 s =
    let v = scan s 0 (record { state = s_begin; utf8_char = 0; rc = 0; buf = [] }) in (v.rc, v.buf)
