-- ===== src/JsonPush/Drive.antt =====
-- `jsonPush` and `jsonPushParserFinish` of src/libopensrf/jsonpush.c.
-- A chunk is its bytes up to the given length or the first nul; `after` is the byte of the buffer
-- behind them, which the code looks at when it counts lines.
use open_srf.Prelude.{
  ℕ, zero, suc, ◌+◌, Bool, true, false, Option, none, some, [], ◌∷◌, ◌==◌, if◌then◌else◌, Bytes,
}
use open_srf.JsonPush.State.{
  State, begin, str, slash, utf8, num, array_begin, array_value, array_comma, obj_begin, obj_key,
  obj_colon, obj_value, obj_comma, true_word, false_word, null_word, end, error, Complaint,
  Handlers, Machine, Result, report, leave, previous_error, invalid_number, incomplete_keyword,
  unfinished,
}
use open_srf.JsonPush.Values.{
  do_begin, do_array_begin, do_array_value, do_array_comma, do_obj_begin, do_obj_key, do_obj_colon,
  do_obj_value, do_obj_comma, do_end,
}
use open_srf.JsonPush.Literals.{
  do_str, do_slash, do_utf8, do_num, do_true, do_false, do_null, valid_number, true_text,
  false_text, null_text,
}

-- the loop at one character: it goes on to the next, or ends with a return code
pub data Fed (S : Type 0) : Type 0 where
  onward : Machine S → Fed S
  stopped : ℕ → Machine S → Fed S

unfoldable pub is_error : State → Bool
is_error error = true
is_error _ = false

-- A character is read three times at most.
abbrev pub max_rounds : ℕ
max_rounds = 3

-- the byte at the next position
abbrev pub next_byte : Bytes → ℕ → ℕ
next_byte [] after = after
next_byte (c ∷ s) after = c

module _ {S : Type 0} where
  -- `++i;` and the count of lines, with the byte that then stands at `i`
  unfoldable pub advance : ℕ → Machine S → Machine S
  advance next m = record m {
    parser =
        if next == b'\n'
        then record m.parser { line = m.parser.line + 1; pos = 0 }
        else record m.parser { pos = m.parser.pos + 1 };
  }

  unfoldable pub clear_again : Machine S → Machine S
  clear_again m = record m { parser = record m.parser { again = 0 } }

  -- `if( 1 == rc ) parser->state = PP_ERROR;`
  unfoldable pub seal : Result S → Result S
  seal (rc, m) =
      (rc, if rc == 1 then record m { parser = record m.parser { state = error } } else m)

  unfoldable pub seal_option : Option (Result S) → Option (Result S)
  unfolding seal
  seal_option none = none
  seal_option (some r) = some (seal r)

module _ {S : Type 0} (H : Handlers S) where
  -- the switch of `jsonPush`
  unfoldable pub dispatch : State → Machine S → ℕ → Result S
  dispatch begin m c = do_begin H m c
  dispatch str m c = do_str H m c
  dispatch slash m c = do_slash H m c
  dispatch utf8 m c = do_utf8 H m c
  dispatch num m c = do_num H m c
  dispatch array_begin m c = do_array_begin H m c
  dispatch array_value m c = do_array_value H m c
  dispatch array_comma m c = do_array_comma H m c
  dispatch obj_begin m c = do_obj_begin H m c
  dispatch obj_key m c = do_obj_key H m c
  dispatch obj_colon m c = do_obj_colon H m c
  dispatch obj_value m c = do_obj_value H m c
  dispatch obj_comma m c = do_obj_comma H m c
  dispatch true_word m c = do_true H m c
  dispatch false_word m c = do_false H m c
  dispatch null_word m c = do_null H m c
  dispatch end m c = do_end H m c
  dispatch error m c = (0, m)

  -- The rounds of the loop of `jsonPush` at one character, `none` if there are more than allowed.
  unfoldable pub feed : ℕ → ℕ → ℕ → Machine S → Option (Fed S)
  feed zero c next m = none
  feed (suc rounds) c next m =
      let (rc, m') = dispatch m.parser.state m c in
      let reread = feed rounds c next (clear_again m') in
      if rc == 0
      then (if m'.parser.again == 0
          then some (onward (advance next m'))
          else if is_error m'.parser.state
          then some (stopped 0 (clear_again m'))
          else reread)
      else some (stopped rc m')

  -- the loop of `jsonPush`
  unfoldable pub run : Bytes → ℕ → Machine S → Option (Result S)
  unfolding feed
  run [] after m = some (0, m)
  run (c ∷ s) after m =
      if is_error m.parser.state
      then some (0, m)
      else elim (feed max_rounds c (next_byte s after) m) [
        | none ↦ none
        | some (onward m') ↦ run s after m'
        | some (stopped rc m') ↦ some (rc, m')
      ]

  -- `jsonPush`, on a chunk that is not NULL
  unfoldable pub push : Bytes → ℕ → Machine S → Option (Result S)
  unfolding seal_option run
  push chunk after m =
      if is_error m.parser.state
      then some (report H m previous_error)
      else seal_option (run chunk after m)

  -- `parser->state = PP_ERROR; rc = 1;` after a complaint
  unfoldable pub fail : Machine S → Complaint → Result S
  unfolding seal
  fail m why = seal (report H m why)

  -- the end of a keyword at the end of the input: the level is left in either case
  unfoldable pub finish_word : Bytes → ℕ → (S → ℕ × S) → Machine S → Result S
  unfolding fail
  finish_word keyword last callback m =
      if m.parser.word_idx == last
      then leave H m.parser (callback m.blob)
      else let (rc, failed) = fail m (incomplete_keyword keyword) in
        leave H failed.parser (rc, failed.blob)

  -- the first part of `jsonPushParserFinish`: the token that is being built
  unfoldable pub finish_token : State → Machine S → Result S
  unfolding fail finish_word
  finish_token num m = elim (valid_number m.parser.buf) [
    | some text ↦ leave H m.parser (H.on_number m.blob text)
    | none ↦ fail m (invalid_number m.parser.buf)
  ]
  finish_token true_word m = finish_word true_text 3 (λ s. H.on_bool s true) m
  finish_token false_word m = finish_word false_text 4 (λ s. H.on_bool s false) m
  finish_token null_word m = finish_word null_text 3 H.on_null m
  finish_token _ m = (0, m)

  -- its second part, with the code so far
  unfoldable pub finish_state : State → ℕ → Machine S → Result S
  unfolding fail
  finish_state begin rc m = (rc, record m { parser = record m.parser { state = end } })
  finish_state num rc m = (rc, m)
  finish_state true_word rc m = (rc, m)
  finish_state false_word rc m = (rc, m)
  finish_state null_word rc m = (rc, m)
  finish_state end rc m = (rc, m)
  finish_state error rc m = (rc, m)
  finish_state s rc m = fail m (unfinished s)

  -- `jsonPushParserFinish`
  unfoldable pub finish : Machine S → Result S
  unfolding finish_token finish_state
  finish m = let (rc, m') = finish_token m.parser.state m in finish_state m'.parser.state rc m'
