-- ===== src/Utf8/Tests.antt =====
-- Runs of `buffer_append_utf8` of src/libopensrf/osrf_utf8.c, and its theorems at concrete texts.
use open_srf.Prelude.{ℕ, ◌≡◌, refl, false, some, List, [], ◌∷◌, arith}
use open_srf.JsonPush.State.{str, Handlers, Machine, new_parser}
use open_srf.JsonPush.Drive.{push}
use open_srf.Utf8.{
  buffer_append_utf8, scan, scan_byte, scan_end, begin_byte, continue_byte, append_ascii,
  append_uxxxx, append_char, append_surrogate_pair, has, hex_char, join, note,
}
use open_srf.Utf8.Scans.{IsPlain, none_left, one_more, encode_text}
use open_srf.Utf8.RoundTrip.{push-buffer_append_utf8}

-- "a", "é" and a newline
abbrev text : List ℕ
text = b'a' ∷ 0xe9 ∷ b'\n' ∷ []

text-IsPlain : IsPlain text
text-IsPlain =
    one_more (omega arith) (omega arith)
      (one_more (omega arith) (omega arith) (one_more (omega arith) (omega arith) none_left))

-- A character of four bytes becomes a surrogate pair.
surrogate_test :
    buffer_append_utf8 (0xf0 ∷ 0x9f ∷ 0x98 ∷ 0x80 ∷ [])
    ≡ (0, b'\\' ∷ b'u' ∷ b'd' ∷ b'8' ∷ b'3' ∷ b'd' ∷ b'\\' ∷ b'u' ∷ b'd' ∷ b'e' ∷ b'0' ∷ b'0' ∷ [])
unfolding buffer_append_utf8 scan scan_byte scan_end begin_byte continue_byte append_char
    append_surrogate_pair append_uxxxx has join hex_char
surrogate_test = refl

-- A text that begins with an invalid byte is skipped, and the code is 0.
invalid_first_test : buffer_append_utf8 (0xff ∷ b'a' ∷ []) ≡ (0, b'a' ∷ [])
unfolding buffer_append_utf8 scan scan_byte scan_end begin_byte append_ascii has note
invalid_first_test = refl

-- callbacks that do nothing
abbrev quiet : Handlers ℕ
quiet = record {
  on_string = λ s t. (0, s);
  on_number = λ s t. (0, s);
  on_begin_array = λ s. (0, s);
  on_end_array = λ s. (0, s);
  on_begin_obj = λ s. (0, s);
  on_obj_key = λ s t. (0, s);
  on_end_obj = λ s. (0, s);
  on_bool = λ s b. (0, s);
  on_null = λ s. (0, s);
  on_end_json = λ s. (false, s);
  on_error = λ s why line pos. s;
}

-- a parser inside a string, behind the letter x
abbrev inside : Machine ℕ
unfolding new_parser
inside = record { parser = record new_parser { state = str; buf = b'x' ∷ [] }; blob = 0 }

push-buffer_append_utf8_example :
    ((buffer_append_utf8 (encode_text text)).0 ≡ 0)
    × (m' : Machine ℕ) × (push quiet (buffer_append_utf8 (encode_text text)).1 b'"' inside
        ≡ some (0, m'))
    × (m'.parser.state ≡ str)
    × (m'.parser.buf ≡ b'x' ∷ encode_text text)
    × (m'.parser.state_stack ≡ [])
    × (m'.blob ≡ 0)
unfolding inside
push-buffer_append_utf8_example =
    push-buffer_append_utf8 quiet text b'"' inside text-IsPlain refl refl
