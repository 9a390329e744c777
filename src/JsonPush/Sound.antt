-- ===== src/JsonPush/Sound.antt =====
-- One step of `jsonPush` of src/libopensrf/jsonpush.c in each state, against the nesting of the events.
use open_srf.Prelude.{ℕ, ◌≡◌, refl, inl, inr, some, List, ◌==◌, Bool-cases}
use open_srf.JsonPush.State.{
  State, begin, str, slash, utf8, num, array_begin, array_value, array_comma, obj_begin, obj_key,
  obj_colon, obj_value, obj_comma, true_word, false_word, null_word, end, error, Handlers, Machine,
}
use open_srf.JsonPush.Drive.{advance, clear_again, dispatch}
use open_srf.JsonPush.Events.{Event, Place, follow, IsRecorder}
use open_srf.JsonPush.Nesting.{levels, place}
use open_srf.JsonPush.Steps.{Inv, Kept}
use open_srf.JsonPush.AgreeValues.{
  do_begin-Kept, do_array_begin-Kept, do_array_value-Kept, do_array_comma-Kept, do_obj_begin-Kept,
  do_obj_key-Kept, do_obj_colon-Kept, do_obj_value-Kept, do_obj_comma-Kept, do_end-Kept,
}
use open_srf.JsonPush.AgreeText.{do_str-Kept, do_slash-Kept, do_utf8-Kept}
use open_srf.JsonPush.AgreeLiterals.{do_num-Kept, do_true-Kept, do_false-Kept, do_null-Kept}

module _ {S : Type 0} (H : Handlers S) (log : S → List Event) (rec : IsRecorder H log) where
  in_state :
      (s : State) (m : Machine S) (c : ℕ) (k : Place)
      → m.parser.state ≡ s
      → place s (levels m.parser) ≡ some k
      → follow (log m.blob) ≡ some k
      → Kept H log rec (dispatch H s m c)
  unfolding dispatch
  in_state begin m c k s h f = do_begin-Kept H log rec m c k f s h
  in_state str m c k s h f = do_str-Kept H log rec m c k f s h
  in_state slash m c k s h f = do_slash-Kept H log rec m c k f s h
  in_state utf8 m c k s h f = do_utf8-Kept H log rec m c k f s h
  in_state num m c k s h f = do_num-Kept H log rec m c k f s h
  in_state array_begin m c k s h f = do_array_begin-Kept H log rec m c k f s h
  in_state array_value m c k s h f = do_array_value-Kept H log rec m c k f s h
  in_state array_comma m c k s h f = do_array_comma-Kept H log rec m c k f s h
  in_state obj_begin m c k s h f = do_obj_begin-Kept H log rec m c k f s h
  in_state obj_key m c k s h f = do_obj_key-Kept H log rec m c k f s h
  in_state obj_colon m c k s h f = do_obj_colon-Kept H log rec m c k f s h
  in_state obj_value m c k s h f = do_obj_value-Kept H log rec m c k f s h
  in_state obj_comma m c k s h f = do_obj_comma-Kept H log rec m c k f s h
  in_state true_word m c k s h f = do_true-Kept H log rec m c k f s h
  in_state false_word m c k s h f = do_false-Kept H log rec m c k f s h
  in_state null_word m c k s h f = do_null-Kept H log rec m c k f s h
  in_state end m c k s h f = do_end-Kept H log rec m c k f s h
  in_state error m c k s h f = absurd (unfold place in cc)

  pub dispatch-Kept :
      (m : Machine S) (c : ℕ) → Inv H log rec m → Kept H log rec (dispatch H m.parser.state m c)
  dispatch-Kept m c i = in_state m.parser.state m c i.at refl i.by_state i.by_events

  pub advance-Inv : (next : ℕ) (m : Machine S) → Inv H log rec m → Inv H log rec (advance next m)
  unfolding advance
  advance-Inv next m i = elim (Bool-cases (next == b'\n')) [ inl e ↦ rw e i | inr e ↦ rw e i ]

  pub clear_again-Inv : (m : Machine S) → Inv H log rec m → Inv H log rec (clear_again m)
  unfolding clear_again
  clear_again-Inv m i = i
