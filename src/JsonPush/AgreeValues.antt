-- ===== src/JsonPush/AgreeValues.antt =====
-- The states between tokens in src/libopensrf/jsonpush.c, against the nesting of the events.
use open_srf.Prelude.{ℕ, ◌≡◌, refl, sym, ◌∙◌, Option, none, some, List, [], ◌∷◌, arith}
use open_srf.JsonPush.State.{
  State, begin, str, array_begin, array_value, array_comma, obj_begin, obj_key, obj_colon,
  obj_value, obj_comma, end, Handlers, Machine, leave, unexpected_at_begin, unexpected_at_array,
  expected_array_value, unexpected_after_colon, expected_array_comma, unexpected_at_obj,
  expected_colon, expected_obj_comma, expected_key, unexpected_after_end,
}
use open_srf.JsonPush.Values.{
  enter_text, goto, do_begin, do_array_begin, do_array_value, do_array_comma, do_obj_begin,
  do_obj_key, do_obj_colon, do_obj_value, do_obj_comma, do_end,
}
use open_srf.JsonPush.Events.{Event, Frame, array, object, Place, open_with, follow, IsRecorder}
use open_srf.JsonPush.Nesting.{levels, frames, before, place}
use open_srf.JsonPush.Steps.{Kept, agreeing, report-Kept, leave-Inv}
use open_srf.JsonPush.Agree.{begin_value-Kept}

-- What an open array or object says of the stack.
pub record Opened (f : Frame) (ss : List State) (k : Place) : Type 0 where
  pub back : State
  pub rest : List State
  pub outer : Place
  pub stack_is : ss ≡ back ∷ rest
  pub outer_is : frames (back ∷ rest) ≡ some outer
  pub place_is : k ≡ f ∷ outer

pub open_with-Opened :
    (f : Frame) (ss : List State) (k : Place) → open_with f (frames ss) ≡ some k → Opened f ss k
open_with-Opened f [] k h = absurd (cc)
open_with-Opened f (b ∷ rest) k h = inside (frames (b ∷ rest)) refl h
  where
    inside :
        (o : Option Place) → frames (b ∷ rest) ≡ o → open_with f o ≡ some k → Opened f (b ∷ rest) k
    inside none e h = absurd (cc)
    inside (some j) e h = record {
      back = b;
      rest = rest;
      outer = j;
      stack_is = refl;
      outer_is = e;
      place_is = ground arith;
    }

place-before_begin : (ss : List State) → place begin ss ≡ before end ss
unfolding place
place-before_begin [] = refl
place-before_begin (s ∷ ss) = refl

module _ {S : Type 0} (H : Handlers S) (log : S → List Event) (rec : IsRecorder H log)
    (m : Machine S) (c : ℕ) (k : Place) (followed : follow (log m.blob) ≡ some k) where
  close_array :
      open_with array (frames (levels m.parser)) ≡ some k
      → Kept H log rec (leave H m.parser (H.on_end_array m.blob))
  unfolding follow
  close_array h =
      let o = open_with-Opened array (levels m.parser) k h in
      agreeing (
        leave-Inv H log rec m.parser (H.on_end_array m.blob).0 (H.on_end_array m.blob).1 o.back
          o.rest o.outer o.stack_is o.outer_is (rw (rec.at_end_array m.blob, followed, o.place_is)))

  close_obj :
      open_with object (frames (levels m.parser)) ≡ some k
      → Kept H log rec (leave H m.parser (H.on_end_obj m.blob))
  unfolding follow
  close_obj h =
      let o = open_with-Opened object (levels m.parser) k h in
      agreeing (
        leave-Inv H log rec m.parser (H.on_end_obj m.blob).0 (H.on_end_obj m.blob).1 o.back o.rest
          o.outer o.stack_is o.outer_is (rw (rec.at_end_obj m.blob, followed, o.place_is)))

  -- The state alone changes, to one that stands for the same place.
  goto-Kept : (s : State) → place s (levels m.parser) ≡ some k → Kept H log rec (goto m s)
  unfolding goto
  goto-Kept s h = agreeing (record { at = k; by_state = h; by_events = followed })

  stay : place m.parser.state (levels m.parser) ≡ some k → Kept H log rec (0, m)
  stay h = agreeing (record { at = k; by_state = h; by_events = followed })

  -- A key of an object is entered.
  enter_key :
      open_with object (frames (levels m.parser)) ≡ some k
      → Kept H log rec (0, enter_text H m obj_key str [])
  unfolding enter_text place
  enter_key h = agreeing (record { at = k; by_state = h; by_events = followed })

  pub do_begin-Kept :
      m.parser.state ≡ begin
      → place begin (levels m.parser) ≡ some k
      → Kept H log rec (do_begin H m c)
  unfolding do_begin
  do_begin-Kept s h =
      let k₁ = stay (rw s h) in
      let k₂ =
        begin_value-Kept H log rec end m k (sym (place-before_begin (levels m.parser)) ∙ h) followed
          (unexpected_at_begin c) c in
      ground arith

  pub do_array_begin-Kept :
      m.parser.state ≡ array_begin
      → place array_begin (levels m.parser) ≡ some k
      → Kept H log rec (do_array_begin H m c)
  unfolding do_array_begin place
  do_array_begin-Kept s h =
      let k₁ = stay (rw s h) in
      let k₂ = close_array h in
      let k₃ = begin_value-Kept H log rec array_value m k h followed (unexpected_at_array c) c in
      ground arith

  pub do_array_value-Kept :
      m.parser.state ≡ array_value
      → place array_value (levels m.parser) ≡ some k
      → Kept H log rec (do_array_value H m c)
  unfolding do_array_value place
  do_array_value-Kept s h =
      let k₁ = stay (rw s h) in
      let k₂ = close_array h in
      let k₃ = goto-Kept array_comma h in
      let k₄ = report-Kept H log rec m (expected_array_comma c) (k, followed) in ground arith

  pub do_array_comma-Kept :
      m.parser.state ≡ array_comma
      → place array_comma (levels m.parser) ≡ some k
      → Kept H log rec (do_array_comma H m c)
  unfolding do_array_comma place
  do_array_comma-Kept s h =
      let k₁ = stay (rw s h) in
      let k₂ = begin_value-Kept H log rec array_value m k h followed (expected_array_value c) c in
      ground arith

  pub do_obj_begin-Kept :
      m.parser.state ≡ obj_begin
      → place obj_begin (levels m.parser) ≡ some k
      → Kept H log rec (do_obj_begin H m c)
  unfolding do_obj_begin place
  do_obj_begin-Kept s h =
      let k₁ = stay (rw s h) in
      let k₂ = close_obj h in
      let k₃ = enter_key h in
      let k₄ = report-Kept H log rec m (unexpected_at_obj c) (k, followed) in ground arith

  pub do_obj_key-Kept :
      m.parser.state ≡ obj_key
      → place obj_key (levels m.parser) ≡ some k
      → Kept H log rec (do_obj_key H m c)
  unfolding do_obj_key place
  do_obj_key-Kept s h =
      let k₁ = stay (rw s h) in
      let k₂ = goto-Kept obj_colon h in
      let k₃ = report-Kept H log rec m (expected_colon c) (k, followed) in ground arith

  pub do_obj_colon-Kept :
      m.parser.state ≡ obj_colon
      → place obj_colon (levels m.parser) ≡ some k
      → Kept H log rec (do_obj_colon H m c)
  unfolding do_obj_colon place
  do_obj_colon-Kept s h =
      let k₁ = stay (rw s h) in
      let k₂ = begin_value-Kept H log rec obj_value m k h followed (unexpected_after_colon c) c in
      ground arith

  pub do_obj_value-Kept :
      m.parser.state ≡ obj_value
      → place obj_value (levels m.parser) ≡ some k
      → Kept H log rec (do_obj_value H m c)
  unfolding do_obj_value place
  do_obj_value-Kept s h =
      let k₁ = stay (rw s h) in
      let k₂ = close_obj h in
      let k₃ = goto-Kept obj_comma h in
      let k₄ = report-Kept H log rec m (expected_obj_comma c) (k, followed) in ground arith

  pub do_obj_comma-Kept :
      m.parser.state ≡ obj_comma
      → place obj_comma (levels m.parser) ≡ some k
      → Kept H log rec (do_obj_comma H m c)
  unfolding do_obj_comma place
  do_obj_comma-Kept s h =
      let k₁ = stay (rw s h) in
      let k₂ = enter_key h in
      let k₃ = report-Kept H log rec m (expected_key c) (k, followed) in ground arith

  pub do_end-Kept :
      m.parser.state ≡ end → place end (levels m.parser) ≡ some k → Kept H log rec (do_end H m c)
  unfolding do_end
  do_end-Kept s h =
      let k₁ = stay (rw s h) in
      let k₂ = report-Kept H log rec m (unexpected_after_end c) (k, followed) in ground arith
