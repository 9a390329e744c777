-- ===== src/JsonPush/Literals.antt =====
-- The handlers of src/libopensrf/jsonpush.c for strings, numbers and keywords.
-- Where the bits of two bytes are disjoint, `|` is written as a sum.
use open_srf.Prelude.{
  ℕ, zero, suc, ◌+◌, ◌-◌, ◌*◌, ◌/◌, ◌%◌, true, false, not, ◌||◌, ◌&&◌, Option, none, some, [], ◌∷◌,
  ◌++◌, leb, ltb, ◌==◌, if◌then◌else◌, get_or, Bytes,
}
use open_srf.Ctype.{is_space, is_punct, is_cntrl, is_print, is_xdigit}
use open_srf.StringArray.{contains, add}
use open_srf.JsonNumber.{is_numeric, scrub_number}
use open_srf.JsonPush.State.{
  State, str, slash, utf8, obj_key, Parser, Complaint, Handlers, Machine, Result, pop_state, report,
  check_end, leave, duplicate_key, illegal_in_string, unexpected_escape, codes_for_nul, non_hex,
  invalid_number, unexpected_after_keyword, unexpected_in_keyword,
}
use open_srf.JsonPush.Values.{is_number_char}

-- `point_code` in UTF-8, lines 641 to 655
unfoldable pub encode_point : ℕ → Bytes
encode_point code =
    if ltb code 0x80
    then code ∷ []
    else if ltb code 0x800
    then (0xc0 + code / 0x40) ∷ (0x80 + code % 0x40) ∷ []
    else (0xe0 + code / 0x1000) ∷ (0x80 + code / 0x40 % 0x40) ∷ (0x80 + code % 0x40) ∷ []

-- the value of a hex digit
unfoldable pub hex_value : ℕ → ℕ
hex_value c = if leb c b'9' then c - b'0' else c % 8 + 9

-- what `found_keyword` tells
pub data Found : Type 0 where
  going finished : Found
  wrong : Complaint → Found

-- `found_keyword`, with the index as it is incremented
unfoldable pub found_keyword : ℕ → ℕ → Bytes → ℕ → Found
unfolding is_space is_punct
found_keyword idx c keyword maxlen =
    if leb maxlen idx
    then (if not (is_space c) && not (is_punct c)
        then wrong (unexpected_after_keyword c)
        else finished)
    else if get_or keyword idx 0 == c
    then going
    else wrong (unexpected_in_keyword (get_or keyword idx 0) c)

abbrev pub true_text : Bytes
true_text = b't' ∷ b'r' ∷ b'u' ∷ b'e' ∷ []

abbrev pub false_text : Bytes
false_text = b'f' ∷ b'a' ∷ b'l' ∷ b's' ∷ b'e' ∷ []

abbrev pub null_text : Bytes
null_text = b'n' ∷ b'u' ∷ b'l' ∷ b'l' ∷ []

-- what a letter behind a backslash stands for
unfoldable pub escaped : ℕ → Option ℕ
escaped c =
    if c == b'"'
    then some b'"'
    else if c == b'\\'
    then some b'\\'
    else if c == b'/'
    then some b'/'
    else if c == b'b'
    then some 8
    else if c == b'f'
    then some 12
    else if c == b'n'
    then some b'\n'
    else if c == b'r'
    then some b'\r'
    else if c == b't'
    then some b'\t'
    else none

-- the text of a number as it is reported: itself if it is valid, else as it can be fixed
unfoldable pub valid_number : Bytes → Option Bytes
valid_number text = if is_numeric text then some text else scrub_number text

module _ {S : Type 0} (H : Handlers S) where
  -- `rc = 0`, with a new parser
  abbrev continue : Machine S → Parser → Result S
  continue m p = (0, record m { parser = p })

  -- a key has ended, and the parser is back at the level of its object
  unfoldable pub end_key : Machine S → Result S
  end_key m =
      if contains m.parser.keylist m.parser.buf
      then report H m (duplicate_key m.parser.buf)
      else let (rc, blob) = H.on_obj_key m.blob m.parser.buf in
        (
          rc,
          record {
            parser = record m.parser { keylist = add m.parser.keylist m.parser.buf };
            blob = blob;
          },
        )

  -- another string has ended
  unfoldable pub end_string : Machine S → Result S
  end_string m =
      let (rc, blob) = H.on_string m.blob m.parser.buf in
      (rc, check_end H (record m { blob = blob }))

  -- lines 510 to 528, by the state that was popped
  unfoldable pub end_text : State → Machine S → Result S
  unfolding end_key end_string
  end_text obj_key m = end_key m
  end_text _ m = end_string m

  unfoldable pub do_str : Machine S → ℕ → Result S
  unfolding end_text is_cntrl is_print
  do_str m c =
      let popped = pop_state m.parser in
      if c == b'"'
      then end_text popped.state (record m { parser = popped })
      else if c == b'\\'
      then continue m (record m.parser { state = slash })
      else if is_cntrl c || not (is_print c)
      then report H m (illegal_in_string c)
      else continue m (record m.parser { buf = m.parser.buf ++ c ∷ [] })

  unfoldable pub do_slash : Machine S → ℕ → Result S
  do_slash m c = elim (escaped c) [
    | some d ↦ continue m (record m.parser { buf = m.parser.buf ++ d ∷ []; state = str })
    | none ↦
        if c == b'u'
        then continue m (record m.parser { word_idx = 0; point_code = 0; state = utf8 })
        else report H m (unexpected_escape c)
  ]

  -- the fourth hex digit
  unfoldable pub end_utf8 : Machine S → ℕ → Result S
  end_utf8 m code =
      if get_or (encode_point code) 0 0 == 0
      then report H m codes_for_nul
      else continue m (record m.parser { buf = m.parser.buf ++ encode_point code; state = str })

  -- lines 622 to 666, by `word_idx`
  unfoldable pub add_hex : Machine S → ℕ → ℕ → Result S
  add_hex m hex zero =
      continue m (record m.parser { word_idx = 1; point_code = m.parser.point_code + hex * 0x1000 })
  add_hex m hex (suc zero) =
      continue m (record m.parser { word_idx = 2; point_code = m.parser.point_code + hex * 0x100 })
  add_hex m hex (suc (suc zero)) =
      continue m (record m.parser { word_idx = 3; point_code = m.parser.point_code + hex * 0x10 })
  add_hex m hex (suc (suc (suc _))) = end_utf8 m (m.parser.point_code + hex)

  unfoldable pub do_utf8 : Machine S → ℕ → Result S
  do_utf8 m c =
      if is_xdigit c then add_hex m (hex_value c) m.parser.word_idx else report H m (non_hex c)

  unfoldable pub do_num : Machine S → ℕ → Result S
  unfolding is_number_char
  do_num m c =
      if is_number_char c
      then continue m (record m.parser { buf = m.parser.buf ++ c ∷ [] })
      else elim (valid_number m.parser.buf) [
        | some text ↦ leave H (record m.parser { again = c }) (H.on_number m.blob text)
        | none ↦ report H m (invalid_number m.parser.buf)
      ]

  -- `do_true`, `do_false` and `do_null`, each with its keyword and its callback
  unfoldable pub do_keyword : Bytes → ℕ → (S → ℕ × S) → Machine S → ℕ → Result S
  do_keyword keyword maxlen callback m c =
      let p = record m.parser { word_idx = m.parser.word_idx + 1 } in
      elim (found_keyword p.word_idx c keyword maxlen) [
        | going ↦ continue m p
        | finished ↦ leave H (record p { again = c }) (callback m.blob)
        | wrong why ↦ report H (record m { parser = p }) why
      ]

  unfoldable pub do_true : Machine S → ℕ → Result S
  unfolding do_keyword
  do_true = do_keyword true_text 4 (λ s. H.on_bool s true)

  unfoldable pub do_false : Machine S → ℕ → Result S
  unfolding do_keyword
  do_false = do_keyword false_text 5 (λ s. H.on_bool s false)

  unfoldable pub do_null : Machine S → ℕ → Result S
  unfolding do_keyword
  do_null = do_keyword null_text 4 H.on_null
