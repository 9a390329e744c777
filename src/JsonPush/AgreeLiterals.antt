-- ===== src/JsonPush/AgreeLiterals.antt =====
-- Numbers and keywords in src/libopensrf/jsonpush.c, against the nesting of the events.
use open_srf.Prelude.{
  ℕ, ◌+◌, ◌≡◌, refl, sym, ◌∙◌, inl, inr, true, false, some, List, [], ◌∷◌, arith, ◌++◌, Bytes,
  Option-cases,
}
use open_srf.JsonPush.State.{
  State, num, true_word, false_word, null_word, Parser, Handlers, Machine, leave, report,
  invalid_number,
}
use open_srf.JsonPush.Literals.{
  do_num, do_keyword, do_true, do_false, do_null, valid_number, found_keyword, Found, going,
  finished, wrong, true_text, false_text, null_text,
}
use open_srf.JsonPush.Events.{
  Event, number, boolean, null_value, Place, fill, next_place, follow, IsRecorder,
}
use open_srf.JsonPush.Nesting.{levels, before, place, fill-before}
use open_srf.JsonPush.Steps.{Kept, agreeing, report-Kept, leave-Inv}
use open_srf.JsonPush.Agree.{before-fill}

-- A state in which a value is read, and what is on the stack under it.
pub record Reading (ss : List State) (k : Place) : Type 0 where
  pub back : State
  pub rest : List State
  pub stack_is : ss ≡ back ∷ rest
  pub before_is : before back rest ≡ some k

pub data Word : State → Type 0 where
  is_true : Word true_word
  is_false : Word false_word
  is_null : Word null_word

-- A number is a value.
pub number_is_read : (ss : List State) (k : Place) → place num ss ≡ some k → Reading ss k
unfolding place
number_is_read [] k h = absurd (cc)
number_is_read (b ∷ ss) k h = record { back = b; rest = ss; stack_is = refl; before_is = h }

-- A keyword is a value.
pub reading :
    (word : State)
    → Word word
    → (ss : List State) (k : Place) → place word ss ≡ some k
    → Reading ss k
unfolding place
reading _ is_true [] k h = absurd (cc)
reading _ is_false [] k h = absurd (cc)
reading _ is_null [] k h = absurd (cc)
reading _ is_true (b ∷ ss) k h = record { back = b; rest = ss; stack_is = refl; before_is = h }
reading _ is_false (b ∷ ss) k h = record { back = b; rest = ss; stack_is = refl; before_is = h }
reading _ is_null (b ∷ ss) k h = record { back = b; rest = ss; stack_is = refl; before_is = h }

module _ {S : Type 0} (H : Handlers S) (log : S → List Event) (rec : IsRecorder H log) where
  -- A callback has reported the value that was read.
  pub reported-Kept :
      (p : Parser) (rc : ℕ) (s s' : S) (k : Place) (e : Event)
      → Reading (levels p) k
      → follow (log s) ≡ some k
      → log s' ≡ e ∷ log s
      → ((j : Place) → next_place e j ≡ fill j)
      → Kept H log rec (leave H p (rc, s'))
  unfolding follow
  reported-Kept p rc s s' k e r f l scalar =
      let (k', filled) = before-fill r.back r.rest k r.before_is in
      let (stands, whole) = fill-before r.back r.rest k r.before_is in
      agreeing (
        leave-Inv H log rec p rc s' r.back r.rest k' r.stack_is (sym stands ∙ filled)
          (rw (l, f, scalar) filled))

  module _ (m : Machine S) (c : ℕ) (k : Place) (followed : follow (log m.blob) ≡ some k) where
    -- Nothing is reported, and the state stands for the same place.
    pub goes_on :
        (s : State) (p : Parser)
        → p.state ≡ s
        → levels p ≡ levels m.parser
        → place s (levels m.parser) ≡ some k
        → Kept H log rec (0, record m { parser = p })
    goes_on s p e l h = agreeing (record { at = k; by_state = rw (e, l) h; by_events = followed })

    pub do_num-Kept :
        m.parser.state ≡ num → place num (levels m.parser) ≡ some k → Kept H log rec (do_num H m c)
    unfolding do_num
    do_num-Kept s h =
        let k₁ = goes_on num (record m.parser { buf = m.parser.buf ++ c ∷ [] }) s refl h in
        let k₂ = report-Kept H log rec m (invalid_number m.parser.buf) (k, followed) in
        let k₃ = λ (t : Bytes).
          reported-Kept (record m.parser { again = c }) (H.on_number m.blob t).0 m.blob
            (H.on_number m.blob t).1 k (number t) (number_is_read (levels m.parser) k h) followed
            (rec.at_number m.blob t) (λ j. refl) in
        elim (Option-cases (valid_number m.parser.buf)) [
          | inl e ↦ rw e (ground arith)
          | inr (t, e) ↦ let k₄ = k₃ t in rw e (ground arith)
        ]

    do_keyword-Kept :
        (word : State) (keyword : Bytes) (maxlen : ℕ) (callback : S → ℕ × S) (e : Event)
        → ((s : S) → log (callback s).1 ≡ e ∷ log s)
        → ((j : Place) → next_place e j ≡ fill j)
        → m.parser.state ≡ word
        → place word (levels m.parser) ≡ some k
        → Reading (levels m.parser) k
        → Kept H log rec (do_keyword H keyword maxlen callback m c)
    unfolding do_keyword
    do_keyword-Kept word keyword maxlen callback e writes scalar s h r =
        found (found_keyword (m.parser.word_idx + 1) c keyword maxlen)
      where
        next : Parser
        next = record m.parser { word_idx = m.parser.word_idx + 1 }

        found :
            (f : Found)
            → Kept H log rec (elim f [
              | going ↦ (0, record m { parser = next })
              | finished ↦ leave H (record next { again = c }) (callback m.blob)
              | wrong why ↦ report H (record m { parser = next }) why
            ])
        found going = goes_on word next s refl h
        found finished =
            reported-Kept (record next { again = c }) (callback m.blob).0 m.blob (callback m.blob).1
              k e r followed (writes m.blob) scalar
        found (wrong why) = report-Kept H log rec (record m { parser = next }) why (k, followed)

    pub do_true-Kept :
        m.parser.state ≡ true_word
        → place true_word (levels m.parser) ≡ some k
        → Kept H log rec (do_true H m c)
    unfolding do_true
    do_true-Kept s h =
        do_keyword-Kept true_word true_text 4 (λ b. H.on_bool b true) (boolean true)
          (λ b. rec.at_bool b true) (λ j. refl) s h
          (reading true_word is_true (levels m.parser) k h)

    pub do_false-Kept :
        m.parser.state ≡ false_word
        → place false_word (levels m.parser) ≡ some k
        → Kept H log rec (do_false H m c)
    unfolding do_false
    do_false-Kept s h =
        do_keyword-Kept false_word false_text 5 (λ b. H.on_bool b false) (boolean false)
          (λ b. rec.at_bool b false) (λ j. refl) s h
          (reading false_word is_false (levels m.parser) k h)

    pub do_null-Kept :
        m.parser.state ≡ null_word
        → place null_word (levels m.parser) ≡ some k
        → Kept H log rec (do_null H m c)
    unfolding do_null
    do_null-Kept s h =
        do_keyword-Kept null_word null_text 4 H.on_null null_value rec.at_null (λ j. refl) s h
          (reading null_word is_null (levels m.parser) k h)
