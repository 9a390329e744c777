-- ===== src/JsonPush/Tests.antt =====
-- Runs of the parser of src/libopensrf/jsonpush.c, and its theorems at concrete texts.
use open_srf.Prelude.{ℕ, ◌≡◌, refl, true, false, Option, none, some, List, [], ◌∷◌, ◌++◌, Bytes}
use open_srf.JsonPush.State.{
  end, true_word, report, leave, pop_state, pop_from, push_state, check_end, check_end_in, at_end,
  resume, Handlers, Machine, Result, new_parser,
}
use open_srf.JsonPush.Values.{
  do_begin, do_array_begin, do_array_value, do_array_comma, do_obj_begin, do_obj_key, do_obj_colon,
  do_obj_value, begin_value, enter, enter_text, enter_word, enter_after, goto,
}
use open_srf.JsonPush.Literals.{
  true_text, do_str, do_num, do_true, do_keyword, end_text, end_key, end_string, found_keyword,
  valid_number,
}
use open_srf.JsonNumber.{is_numeric}
use open_srf.StringArray.{add, contains}
use open_srf.JsonPush.Drive.{
  push, finish, run, feed, seal_option, seal, is_error, dispatch, advance, clear_again,
  finish_token, finish_state,
}
use open_srf.JsonPush.Events.{
  Event, string, number, boolean, null_value, opened_array, closed_array, opened_obj, closed_obj,
  key, ended, fresh, IsRecorder, follow,
}
use open_srf.JsonPush.Nesting.{place, Followed}
use open_srf.JsonPush.Order.{push_all, push_all-Followed}
use open_srf.JsonPush.Chunks.{push-onward}
use open_srf.JsonPush.Finish.{IsComplete, finish-IsComplete, for_true, finish-incomplete}

-- callbacks that write down each event
abbrev recorder : Handlers (List Event)
recorder = record {
  on_string = λ s t. (0, string t ∷ s);
  on_number = λ s t. (0, number t ∷ s);
  on_begin_array = λ s. (0, opened_array ∷ s);
  on_end_array = λ s. (0, closed_array ∷ s);
  on_begin_obj = λ s. (0, opened_obj ∷ s);
  on_obj_key = λ s t. (0, key t ∷ s);
  on_end_obj = λ s. (0, closed_obj ∷ s);
  on_bool = λ s b. (0, boolean b ∷ s);
  on_null = λ s. (0, null_value ∷ s);
  on_end_json = λ s. (false, ended false ∷ s);
  on_error = λ s why line pos. s;
}

recorder-IsRecorder : IsRecorder recorder (λ s. s)
recorder-IsRecorder = record {
  at_string = λ s t. refl;
  at_number = λ s t. refl;
  at_begin_array = λ s. refl;
  at_end_array = λ s. refl;
  at_begin_obj = λ s. refl;
  at_obj_key = λ s t. refl;
  at_end_obj = λ s. refl;
  at_bool = λ s b. refl;
  at_null = λ s. refl;
  at_end_json = λ s. refl;
  at_error = λ s why line pos. refl;
}

abbrev start : Machine (List Event)
unfolding new_parser
start = record { parser = new_parser; blob = [] }

-- `[1,{"a":`
abbrev first_part : Bytes
first_part = b'[' ∷ b'1' ∷ b',' ∷ b'{' ∷ b'"' ∷ b'a' ∷ b'"' ∷ b':' ∷ []

-- `true}]`
abbrev second_part : Bytes
second_part = b't' ∷ b'r' ∷ b'u' ∷ b'e' ∷ b'}' ∷ b']' ∷ []

events_of : Option (Result (List Event)) → Option (ℕ × List Event)
events_of none = none
events_of (some r) = some (r.0, r.1.blob)

push_test :
    events_of (push recorder (first_part ++ second_part) 0 start)
    ≡ some (
      0,
      ended false
          ∷ closed_array
          ∷ closed_obj
          ∷ boolean true
          ∷ key (b'a' ∷ [])
          ∷ opened_obj
          ∷ number (b'1' ∷ [])
          ∷ opened_array
          ∷ [],
    )
unfolding events_of push run feed seal_option seal is_error dispatch advance clear_again start
    new_parser report do_begin do_array_begin do_array_value do_array_comma do_obj_begin do_obj_key
    do_obj_colon do_obj_value begin_value enter enter_text enter_word enter_after goto do_str do_num
    do_true do_keyword end_text end_key end_string found_keyword valid_number is_numeric leave
    pop_state pop_from push_state check_end check_end_in at_end resume add contains
push_test = refl

-- `]` at the start stops the parser.
push_error_test : events_of (push recorder (b']' ∷ []) 0 start) ≡ some (1, [])
unfolding events_of push run feed seal_option seal is_error dispatch advance clear_again start
    new_parser report do_begin do_array_begin do_array_value do_array_comma do_obj_begin do_obj_key
    do_obj_colon do_obj_value begin_value enter enter_text enter_word enter_after goto do_str do_num
    do_true do_keyword end_text end_key end_string found_keyword valid_number is_numeric leave
    pop_state pop_from push_state check_end check_end_in at_end resume add contains
push_error_test = refl

push_all-Followed_example :
    (m' : Machine (List Event)) × (push_all recorder
        (record { bytes = first_part; after = b't' }
          ∷ record { bytes = second_part; after = 0 }
          ∷ [])
        (record { parser = new_parser; blob = [] })
      ≡ some m')
    × Followed m'.blob
push_all-Followed_example =
    push_all-Followed recorder (λ s. s) recorder-IsRecorder
      (record { bytes = first_part; after = b't' } ∷ record { bytes = second_part; after = 0 } ∷ [])
      [] refl

-- The machine behind a first part.
left_by : Option (Result (List Event)) → Machine (List Event)
left_by none = start
left_by (some r) = r.1

abbrev behind : Machine (List Event)
unfolding left_by push run feed seal_option seal is_error dispatch advance clear_again start
    new_parser report do_begin do_array_begin do_array_value do_array_comma do_obj_begin do_obj_key
    do_obj_colon do_obj_value begin_value enter enter_text enter_word enter_after goto do_str do_num
    do_true do_keyword end_text end_key end_string found_keyword valid_number is_numeric leave
    pop_state pop_from push_state check_end check_end_in at_end resume add contains
behind = left_by (push recorder first_part b't' start)

push-onward_example :
    push recorder (first_part ++ second_part) 0 start ≡ push recorder second_part 0 behind
unfolding push run feed seal_option seal is_error dispatch advance clear_again start new_parser
    report do_begin do_array_begin do_array_value do_array_comma do_obj_begin do_obj_key
    do_obj_colon do_obj_value begin_value enter enter_text enter_word enter_after goto do_str do_num
    do_true do_keyword end_text end_key end_string found_keyword valid_number behind left_by
    is_numeric leave pop_state pop_from push_state check_end check_end_in at_end resume add contains
push-onward_example = push-onward recorder first_part second_part 0 start behind refl refl

-- behind `12`
abbrev in_number : Machine (List Event)
unfolding left_by push run feed seal_option seal is_error dispatch advance clear_again start
    new_parser report do_begin do_array_begin do_array_value do_array_comma do_obj_begin do_obj_key
    do_obj_colon do_obj_value begin_value enter enter_text enter_word enter_after goto do_str do_num
    do_true do_keyword end_text end_key end_string found_keyword valid_number is_numeric leave
    pop_state pop_from push_state check_end check_end_in at_end resume add contains
in_number = left_by (push recorder (b'1' ∷ b'2' ∷ []) 0 start)

finish_test : (finish recorder in_number).1.blob ≡ ended false ∷ number (b'1' ∷ b'2' ∷ []) ∷ []
unfolding finish finish_token finish_state in_number left_by push run feed seal_option seal is_error
    dispatch advance clear_again start new_parser report do_begin do_array_begin do_array_value
    do_array_comma do_obj_begin do_obj_key do_obj_colon do_obj_value begin_value enter enter_text
    enter_word enter_after goto do_str do_num do_true do_keyword end_text end_key end_string
    found_keyword valid_number is_numeric leave pop_state pop_from push_state check_end check_end_in
    at_end resume add contains
finish_test = refl

finish-IsComplete_example : IsComplete (finish recorder in_number).1.blob
unfolding finish finish_token finish_state place follow in_number left_by push run feed seal_option
    seal is_error dispatch advance clear_again start new_parser report do_begin do_array_begin
    do_array_value do_array_comma do_obj_begin do_obj_key do_obj_colon do_obj_value begin_value
    enter enter_text enter_word enter_after goto do_str do_num do_true do_keyword end_text end_key
    end_string found_keyword valid_number is_numeric leave pop_state pop_from push_state check_end
    check_end_in at_end resume add contains
finish-IsComplete_example =
    finish-IsComplete recorder (λ s. s) recorder-IsRecorder in_number
      (record { at = fresh ∷ []; by_state = refl; by_events = refl }) refl

-- behind `tr`
abbrev in_true : Machine (List Event)
unfolding left_by push run feed seal_option seal is_error dispatch advance clear_again start
    new_parser report do_begin do_array_begin do_array_value do_array_comma do_obj_begin do_obj_key
    do_obj_colon do_obj_value begin_value enter enter_text enter_word enter_after goto do_str do_num
    do_true do_keyword end_text end_key end_string found_keyword valid_number is_numeric leave
    pop_state pop_from push_state check_end check_end_in at_end resume add contains
in_true = left_by (push recorder (b't' ∷ b'r' ∷ []) 0 start)

finish-incomplete_example :
    ((finish recorder in_true).0 ≡ 1)
    × ((finish recorder in_true).1.parser.state ≡ end)
    × ((finish recorder in_true).1.blob ≡ ended false ∷ [])
unfolding in_true left_by push run feed seal_option seal is_error dispatch advance clear_again start
    new_parser report do_begin do_array_begin do_array_value do_array_comma do_obj_begin do_obj_key
    do_obj_colon do_obj_value begin_value enter enter_text enter_word enter_after goto do_str do_num
    do_true do_keyword end_text end_key end_string found_keyword valid_number is_numeric leave
    pop_state pop_from push_state check_end check_end_in at_end resume add contains
finish-incomplete_example =
    finish-incomplete recorder in_true true_word true_text 3 for_true refl refl refl
