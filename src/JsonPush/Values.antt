-- ===== src/JsonPush/Values.antt =====
-- The handlers of src/libopensrf/jsonpush.c for the states between tokens.
use open_srf.Prelude.{ℕ, Bool, ◌||◌, [], ◌∷◌, ◌==◌, if◌then◌else◌, Bytes}
use open_srf.Ctype.{is_digit, is_space}
use open_srf.JsonPush.State.{
  State, str, num, array_begin, array_value, array_comma, obj_begin, obj_key, obj_colon, obj_value,
  obj_comma, true_word, false_word, null_word, end, Complaint, Handlers, Machine, Result,
  push_state, report, leave, unexpected_at_begin, unexpected_at_array, expected_array_comma,
  expected_array_value, unexpected_at_obj, expected_colon, unexpected_after_colon,
  expected_obj_comma, expected_key, unexpected_after_end,
}

-- the characters of numbers, as the parser tests for them
unfoldable pub is_number_char : ℕ → Bool
is_number_char c = is_digit c || c == b'-' || c == b'+' || c == b'.' || c == b'e' || c == b'E'

-- `parser->state = s;`
unfoldable pub goto : {S : Type 0} → Machine S → State → Result S
goto m s = (0, record m { parser = record m.parser { state = s } })

module _ {S : Type 0} (H : Handlers S) where
  -- `push_pp_state( parser, back ); parser->state = inner;`
  unfoldable pub enter : Machine S → State → State → Machine S
  unfolding push_state
  enter m back inner = record m { parser = record (push_state m.parser back) { state = inner } }

  -- `buffer_reset( parser->buf );` and the same
  unfoldable pub enter_text : Machine S → State → State → Bytes → Machine S
  unfolding enter
  enter_text m back inner text =
      enter (record m { parser = record m.parser { buf = text } }) back inner

  -- `parser->word_idx = 0;` and the same
  unfoldable pub enter_word : Machine S → State → State → Machine S
  unfolding enter
  enter_word m back inner = record (enter m back inner) {
    parser = record (enter m back inner).parser { word_idx = 0 };
  }

  -- a callback, then `enter`
  unfoldable pub enter_after : Machine S → State → State → ℕ × S → Result S
  unfolding enter
  enter_after m back inner (rc, blob) = (rc, enter (record m { blob = blob }) back inner)

  -- The first character of a value, as `do_begin`, `do_array_begin`, `do_array_comma` and
  -- `do_obj_colon` test for it, each with the state to come back to; else their complaint.
  unfoldable pub begin_value : State → Complaint → Machine S → ℕ → Result S
  unfolding enter_text enter_word enter_after is_number_char
  begin_value back why m c =
      if c == b'"'
      then (0, enter_text m back str [])
      else if c == b'['
      then enter_after m back array_begin (H.on_begin_array m.blob)
      else if c == b'{'
      then enter_after m back obj_begin (H.on_begin_obj m.blob)
      else if c == b't'
      then (0, enter_word m back true_word)
      else if c == b'f'
      then (0, enter_word m back false_word)
      else if c == b'n'
      then (0, enter_word m back null_word)
      else if is_number_char c
      then (0, enter_text m back num (c ∷ []))
      else report H m why

  unfoldable pub do_begin : Machine S → ℕ → Result S
  unfolding begin_value is_space
  do_begin m c = if is_space c then (0, m) else begin_value end (unexpected_at_begin c) m c

  unfoldable pub do_array_begin : Machine S → ℕ → Result S
  unfolding begin_value is_space
  do_array_begin m c =
      if is_space c
      then (0, m)
      else if c == b']'
      then leave H m.parser (H.on_end_array m.blob)
      else begin_value array_value (unexpected_at_array c) m c

  unfoldable pub do_array_value : Machine S → ℕ → Result S
  unfolding goto is_space
  do_array_value m c =
      if is_space c
      then (0, m)
      else if c == b','
      then goto m array_comma
      else if c == b']'
      then leave H m.parser (H.on_end_array m.blob)
      else report H m (expected_array_comma c)

  unfoldable pub do_array_comma : Machine S → ℕ → Result S
  unfolding begin_value is_space
  do_array_comma m c =
      if is_space c then (0, m) else begin_value array_value (expected_array_value c) m c

  unfoldable pub do_obj_begin : Machine S → ℕ → Result S
  unfolding enter_text is_space
  do_obj_begin m c =
      if is_space c
      then (0, m)
      else if c == b'"'
      then (0, enter_text m obj_key str [])
      else if c == b'}'
      then leave H m.parser (H.on_end_obj m.blob)
      else report H m (unexpected_at_obj c)

  unfoldable pub do_obj_key : Machine S → ℕ → Result S
  unfolding goto is_space
  do_obj_key m c =
      if is_space c
      then (0, m)
      else if c == b':'
      then goto m obj_colon
      else report H m (expected_colon c)

  unfoldable pub do_obj_colon : Machine S → ℕ → Result S
  unfolding begin_value is_space
  do_obj_colon m c =
      if is_space c then (0, m) else begin_value obj_value (unexpected_after_colon c) m c

  unfoldable pub do_obj_value : Machine S → ℕ → Result S
  unfolding goto is_space
  do_obj_value m c =
      if is_space c
      then (0, m)
      else if c == b','
      then goto m obj_comma
      else if c == b'}'
      then leave H m.parser (H.on_end_obj m.blob)
      else report H m (expected_obj_comma c)

  unfoldable pub do_obj_comma : Machine S → ℕ → Result S
  unfolding enter_text is_space
  do_obj_comma m c =
      if is_space c
      then (0, m)
      else if c == b'"'
      then (0, enter_text m obj_key str [])
      else report H m (expected_key c)

  unfoldable pub do_end : Machine S → ℕ → Result S
  unfolding is_space
  do_end m c = if is_space c then (0, m) else report H m (unexpected_after_end c)
