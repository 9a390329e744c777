-- ===== src/JsonPush/Agree.antt =====
-- The first character of a value in src/libopensrf/jsonpush.c, against the nesting of the events.
use open_srf.Prelude.{ℕ, ◌≡◌, sym, ◌∙◌, ap, Option, none, some, List, [], ◌∷◌, arith, Bytes}
use open_srf.JsonPush.State.{
  State, str, num, array_begin, array_value, obj_begin, obj_key, obj_value, true_word, false_word,
  null_word, end, Complaint, Handlers, Machine,
}
use open_srf.JsonPush.Values.{enter_text, enter_word, enter_after, begin_value}
use open_srf.JsonPush.Events.{
  Event, done, array, object, member, Place, fill, open_with, follow, IsRecorder,
}
use open_srf.JsonPush.Nesting.{levels, frames, before, before_text, place, fill-before}
use open_srf.JsonPush.Steps.{Inv, Kept, agreeing, report-Kept}

before-before_text :
    (back : State) (ss : List State) (k : Place)
    → before back ss ≡ some k
    → before_text back ss ≡ some k
before-before_text obj_key ss k h = absurd (cc)
before-before_text _ ss k h = h

-- Before a value the place can be filled.
pub before-fill :
    (back : State) (ss : List State) (k : Place)
    → before back ss ≡ some k
    → (k' : Place) × (fill k ≡ some k')
before-fill end [] k h = (done ∷ [], ground arith)
before-fill array_value ss k h = opened (frames ss) k h
  where
    opened :
        (o : Option Place) (k : Place)
        → open_with array o ≡ some k
        → (k' : Place) × (fill k ≡ some k')
    opened none k h = absurd (cc)
    opened (some j) k h = (array ∷ j, ground arith)
before-fill obj_value ss k h = opened (frames ss) k h
  where
    opened :
        (o : Option Place) (k : Place)
        → open_with member o ≡ some k
        → (k' : Place) × (fill k ≡ some k')
    opened none k h = absurd (cc)
    opened (some j) k h = (object ∷ j, ground arith)
before-fill _ ss k h = absurd (cc)

module _ {S : Type 0} (H : Handlers S) (log : S → List Event) (rec : IsRecorder H log) where
  module _ (back : State) (m : Machine S) (k : Place)
      (pending : before back (levels m.parser) ≡ some k)
      (followed : follow (log m.blob) ≡ some k) where
    enter_str : (text : Bytes) → Inv H log rec (enter_text H m back str text)
    unfolding enter_text place
    enter_str text = record {
      at = k;
      by_state = before-before_text back (levels m.parser) k pending;
      by_events = followed;
    }

    enter_num : (text : Bytes) → Inv H log rec (enter_text H m back num text)
    unfolding enter_text place
    enter_num text = record { at = k; by_state = pending; by_events = followed }

    enter_words :
        Inv H log rec (enter_word H m back true_word)
        × Inv H log rec (enter_word H m back false_word)
        × Inv H log rec (enter_word H m back null_word)
    unfolding enter_word place
    enter_words = (
      record { at = k; by_state = pending; by_events = followed },
      record { at = k; by_state = pending; by_events = followed },
      record { at = k; by_state = pending; by_events = followed },
    )

    filled_place : (k' : Place) × (fill k ≡ some k')
    filled_place = before-fill back (levels m.parser) k pending

    enter_array : Inv H log rec (enter_after H m back array_begin (H.on_begin_array m.blob)).1
    unfolding enter_after place follow
    enter_array =
        let (filled, whole) = fill-before back (levels m.parser) k pending in
        let (k', is) = filled_place in
        record {
          at = array ∷ k';
          by_state = ap (open_with array) (sym filled ∙ is);
          by_events = rw (rec.at_begin_array m.blob, followed, is);
        }

    enter_obj : Inv H log rec (enter_after H m back obj_begin (H.on_begin_obj m.blob)).1
    unfolding enter_after place follow
    enter_obj =
        let (filled, whole) = fill-before back (levels m.parser) k pending in
        let (k', is) = filled_place in
        record {
          at = object ∷ k';
          by_state = ap (open_with object) (sym filled ∙ is);
          by_events = rw (rec.at_begin_obj m.blob, followed, is);
        }

    pub begin_value-Kept : (why : Complaint) (c : ℕ) → Kept H log rec (begin_value H back why m c)
    unfolding begin_value
    begin_value-Kept why c =
        let k₁ : Kept H log rec (0, enter_text H m back str []) = agreeing (enter_str []) in
        let k₂ : Kept H log rec (enter_after H m back array_begin (H.on_begin_array m.blob)) =
          agreeing enter_array in
        let k₃ : Kept H log rec (enter_after H m back obj_begin (H.on_begin_obj m.blob)) =
          agreeing enter_obj in
        let k₄ : Kept H log rec (0, enter_word H m back true_word) = agreeing enter_words.0 in
        let k₅ : Kept H log rec (0, enter_word H m back false_word) = agreeing enter_words.1 in
        let k₆ : Kept H log rec (0, enter_word H m back null_word) = agreeing enter_words.2 in
        let k₇ : Kept H log rec (0, enter_text H m back num (c ∷ [])) =
          agreeing (enter_num (c ∷ [])) in
        let k₈ = report-Kept H log rec m why (k, followed) in ground arith
