-- ===== src/JsonPush/State.antt =====
-- The state of the parser of src/libopensrf/jsonpush.c, its callbacks and its stack.
-- Keys are stored by the string arrays of StringArray; text that is being built is a byte list.
use open_srf.Prelude.{ℕ, Bool, List, [], ◌∷◌, if◌then◌else◌, Bytes}
use open_srf.StringArray.{StringArray, new_string_array, swap, clear}

-- `PPState`
pub data State : Type 0 where
  begin str slash utf8 num : State
  array_begin array_value array_comma : State
  obj_begin obj_key obj_colon obj_value obj_comma : State
  true_word false_word null_word : State
  end error : State

-- `StateNode`; its `next` is the rest of the list that it stands in.
pub record StateNode : Type 0 where
  pub state : State
  pub keylist : StringArray

-- `JSONPushParser`, without the callbacks; `again` is 0 where no character is to be read again.
pub record Parser : Type 0 where
  pub line : ℕ
  pub pos : ℕ
  pub state : State
  pub again : ℕ
  pub buf : Bytes
  pub state_stack : List StateNode
  pub free_states : List StateNode
  pub word_idx : ℕ
  pub point_code : ℕ
  pub keylist : StringArray

-- What `report_pp_error` is called with, by its format and arguments.
pub data Complaint : Type 0 where
  null_input previous_error : Complaint
  unexpected_at_begin : ℕ → Complaint
  duplicate_key : Bytes → Complaint
  illegal_in_string : ℕ → Complaint
  unexpected_escape : ℕ → Complaint
  codes_for_nul : Complaint
  non_hex : ℕ → Complaint
  invalid_number : Bytes → Complaint
  unexpected_at_array : ℕ → Complaint
  expected_array_comma : ℕ → Complaint
  expected_array_value : ℕ → Complaint
  unexpected_at_obj : ℕ → Complaint
  expected_colon : ℕ → Complaint
  unexpected_after_colon : ℕ → Complaint
  expected_obj_comma : ℕ → Complaint
  expected_key : ℕ → Complaint
  unexpected_after_keyword : ℕ → Complaint
  unexpected_in_keyword : ℕ → ℕ → Complaint
  unexpected_after_end : ℕ → Complaint
  incomplete_keyword : Bytes → Complaint
  unfinished : State → Complaint

-- `JSONHandlerMap` over the `blob`. A callback gives its return code, as the bits of an `int`, and
-- the blob that it leaves; a NULL callback is one that gives 0 and leaves the blob alone.
-- The Boolean of `end_json` says whether it called `jsonPushParserResume`.
pub record Handlers (S : Type 0) : Type 0 where
  pub on_string : S → Bytes → ℕ × S
  pub on_number : S → Bytes → ℕ × S
  pub on_begin_array : S → ℕ × S
  pub on_end_array : S → ℕ × S
  pub on_begin_obj : S → ℕ × S
  pub on_obj_key : S → Bytes → ℕ × S
  pub on_end_obj : S → ℕ × S
  pub on_bool : S → Bool → ℕ × S
  pub on_null : S → ℕ × S
  pub on_end_json : S → Bool × S
  pub on_error : S → Complaint → ℕ → ℕ → S

-- `jsonNewPushParser`; `point_code` is set before it is first read, and is cleared by the allocator.
unfoldable pub new_parser : Parser
new_parser = record {
  line = 1;
  pos = 1;
  state = begin;
  again = 0;
  buf = [];
  state_stack = [];
  free_states = [];
  word_idx = 0;
  point_code = 0;
  keylist = new_string_array 8;
}

-- `jsonPushParserReset`
unfoldable pub reset : Parser → Parser
reset p = record p { line = 1; pos = 1; state = begin }

-- `jsonPushParserResume`
unfoldable pub resume : Parser → Parser
resume p = record p { state = begin }

-- the node that `push_pp_state` fills, and the free list that is left
unfoldable pub take_node : List StateNode → StringArray × List StateNode
take_node [] = (new_string_array 8, [])
take_node (node ∷ rest) = (node.keylist, rest)

unfoldable pub push_state : Parser → State → Parser
unfolding take_node swap
push_state p s =
    let (fresh, rest) = take_node p.free_states in
    let (mine, saved) = swap p.keylist fresh in
    record p {
      keylist = mine;
      state_stack = record { state = s; keylist = saved } ∷ p.state_stack;
      free_states = rest;
    }

-- `pop_pp_state`
unfoldable pub pop_from : List StateNode → Parser → Parser
unfolding swap clear
pop_from [] p = record p { state = end }
pop_from (node ∷ rest) p =
    let (mine, old) = swap p.keylist node.keylist in
    record p {
      state = node.state;
      keylist = mine;
      state_stack = rest;
      free_states = record { state = node.state; keylist = clear old } ∷ p.free_states;
    }

unfoldable pub pop_state : Parser → Parser
unfolding pop_from
pop_state p = pop_from p.state_stack p

-- a parser with its blob
pub record Machine (S : Type 0) : Type 0 where
  pub parser : Parser
  pub blob : S

-- what a state handler gives: its return code, and what it leaves
abbrev pub Result : Type 0 → Type 0
Result S = ℕ × Machine S

module _ {S : Type 0} (H : Handlers S) where
  open H use {on_end_json, on_error}

  -- `report_pp_error`, then `rc = 1`
  unfoldable pub report : Machine S → Complaint → Result S
  report m why = (1, record m { blob = on_error m.blob why m.parser.line m.parser.pos })

  -- `check_pp_end`, where the state is `end`
  unfoldable pub at_end : Machine S → Machine S
  unfolding resume
  at_end m =
      let (resumed, blob) = on_end_json m.blob in
      record { parser = if resumed then resume m.parser else m.parser; blob = blob }

  unfoldable pub check_end_in : State → Machine S → Machine S
  unfolding at_end
  check_end_in end m = at_end m
  check_end_in _ m = m

  -- `check_pp_end`
  unfoldable pub check_end : Machine S → Machine S
  unfolding check_end_in
  check_end m = check_end_in m.parser.state m

  -- after a callback: `pop_pp_state( parser ); check_pp_end( parser );`
  unfoldable pub leave : Parser → ℕ × S → Result S
  unfolding check_end pop_state
  leave p (rc, blob) = (rc, check_end (record { parser = pop_state p; blob = blob }))
