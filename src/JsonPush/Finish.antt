-- ===== src/JsonPush/Finish.antt =====
-- `jsonPushParserFinish` of src/libopensrf/jsonpush.c.
use open_srf.Prelude.{
  ℕ, ◌≡◌, refl, sym, subst, ◌∙◌, ap, inl, inr, true, false, some, List, [], ◌∷◌, arith, Bytes, ◌==◌,
  Bool-cases, Option-cases,
}
use open_srf.JsonPush.State.{
  State, begin, end, error, num, true_word, false_word, null_word, Parser, Handlers, Machine,
  Result, Complaint, invalid_number, incomplete_keyword, check_end, check_end_in,
  at_end as at_end_of, resume, pop_state, leave, report,
}
use open_srf.JsonPush.Literals.{valid_number, true_text, false_text, null_text}
use open_srf.JsonPush.Drive.{seal, fail, finish_word, finish_token, finish_state, finish}
use open_srf.JsonPush.Events.{
  Event, number, boolean, null_value, fill, next_place, Place, fresh, done, follow, IsRecorder,
}
use open_srf.JsonPush.Nesting.{levels, place}
use open_srf.JsonPush.Steps.{Inv, pop_state-Popped}
use open_srf.JsonPush.AgreeLiterals.{
  Reading, number_is_read, is_true, is_false, is_null, reading, reported-Kept,
}
use open_srf.JsonPush.Total.{rests, reading-left, word_place}
use open_srf.JsonPush.Order.{Kept-Inv}

-- One value and nothing open, or nothing since the start or the last resumption.
pub data IsComplete (log : List Event) : Type 0 where
  whole : follow log ≡ some (done ∷ []) → IsComplete log
  empty : follow log ≡ some (fresh ∷ []) → IsComplete log

module _ {S : Type 0} (H : Handlers S) (log : S → List Event) (rec : IsRecorder H log) where
  finish_state-code : (s : State) (rc : ℕ) (m : Machine S) → (finish_state H s rc m).0 ≡ 0 → rc ≡ 0
  unfolding finish_state fail seal report
  finish_state-code begin rc m h = h
  finish_state-code num rc m h = h
  finish_state-code true_word rc m h = h
  finish_state-code false_word rc m h = h
  finish_state-code null_word rc m h = h
  finish_state-code end rc m h = h
  finish_state-code error rc m h = h
  finish_state-code _ rc m h = absurd (ground arith)

  at_begin : (ss : List State) (k : Place) → place begin ss ≡ some k → k ≡ fresh ∷ []
  unfolding place
  at_begin [] k h = ground arith
  at_begin (s ∷ ss) k h = absurd (cc)

  at_end : (ss : List State) (k : Place) → place end ss ≡ some k → k ≡ done ∷ []
  unfolding place
  at_end [] k h = ground arith
  at_end (s ∷ ss) k h = absurd (cc)

  finish_state-IsComplete :
      (s : State) (rc : ℕ) (m : Machine S) (i : Inv H log rec m)
      → place s (levels m.parser) ≡ some i.at
      → rests s ≡ true
      → (finish_state H s rc m).0 ≡ 0
      → IsComplete (log (finish_state H s rc m).1.blob)
  unfolding finish_state fail seal report rests
  finish_state-IsComplete begin rc m i p r h =
      empty (i.by_events ∙ ap some (at_begin (levels m.parser) i.at p))
  finish_state-IsComplete end rc m i p r h =
      whole (i.by_events ∙ ap some (at_end (levels m.parser) i.at p))
  finish_state-IsComplete num rc m i p r h = absurd (cc)
  finish_state-IsComplete true_word rc m i p r h = absurd (cc)
  finish_state-IsComplete false_word rc m i p r h = absurd (cc)
  finish_state-IsComplete null_word rc m i p r h = absurd (cc)
  finish_state-IsComplete error rc m i p r h = absurd (unfold place in cc)
  finish_state-IsComplete _ rc m i p r h = absurd (ground arith)

  -- What the first part gives leads to code 0 only behind a complete value.
  EndsWell : Result S → Type 0
  EndsWell r =
      (finish_state H r.1.parser.state r.0 r.1).0 ≡ 0
      → IsComplete (log (finish_state H r.1.parser.state r.0 r.1).1.blob)

  failed-EndsWell : (r : Result S) → r.0 ≡ 1 → EndsWell r
  unfolding EndsWell
  failed-EndsWell r one z =
      let code = finish_state-code r.1.parser.state r.0 r.1 z in absurd (ground arith)

  -- After a callback that completed a value at the end of the input.
  leave-EndsWell :
      (p : Parser) (rc : ℕ) (s s' : S) (k : Place) (e : Event)
      → Reading (levels p) k
      → place num (levels p) ≡ some k
      → follow (log s) ≡ some k
      → log s' ≡ e ∷ log s
      → ((j : Place) → next_place e j ≡ fill j)
      → EndsWell (leave H p (rc, s'))
  unfolding EndsWell
  leave-EndsWell p rc s s' k e r h f l scalar z =
      let result = leave H p (rc, s') in
      let kept = reported-Kept H log rec p rc s s' k e r f l scalar in
      let code = finish_state-code result.1.parser.state result.0 result.1 z in
      let i = Kept-Inv H log rec result kept (ground arith) in
      finish_state-IsComplete result.1.parser.state result.0 result.1 i i.by_state
        (reading-left H p (rc, s') k h) z

  module _ (m : Machine S) (i : Inv H log rec m) where
    fail-one : (why : Complaint) → (fail H m why).0 ≡ 1
    unfolding fail seal report
    fail-one why = refl

    number-EndsWell : place num (levels m.parser) ≡ some i.at → EndsWell (finish_token H num m)
    unfolding finish_token
    number-EndsWell h = elim (Option-cases (valid_number m.parser.buf)) [
      | inl e ↦ rw (finish_token, e) (failed-EndsWell _ (fail-one (invalid_number m.parser.buf)))
      | inr (t, e) ↦
          let told = H.on_number m.blob t in
          rw (finish_token, e)
            (leave-EndsWell m.parser told.0 m.blob told.1 i.at (number t)
              (number_is_read (levels m.parser) i.at h) h i.by_events (rec.at_number m.blob t)
              (λ j. refl))
    ]

    word-EndsWell :
        (keyword : Bytes) (last : ℕ) (callback : S → ℕ × S) (e : Event)
        → Reading (levels m.parser) i.at
        → place num (levels m.parser) ≡ some i.at
        → log (callback m.blob).1 ≡ e ∷ log m.blob
        → ((j : Place) → next_place e j ≡ fill j)
        → EndsWell (finish_word H keyword last callback m)
    unfolding finish_word leave fail seal report
    word-EndsWell keyword last callback e r h writes scalar =
        elim (Bool-cases (m.parser.word_idx == last)) [
          | inl y ↦
              rw (finish_word, y)
                (leave-EndsWell m.parser (callback m.blob).0 m.blob (callback m.blob).1 i.at e r h
                  i.by_events writes scalar)
          | inr y ↦ rw (finish_word, y) (failed-EndsWell _ refl)
        ]

    token-EndsWell :
        (s : State)
        → m.parser.state ≡ s
        → place s (levels m.parser) ≡ some i.at
        → EndsWell (finish_token H s m)
    unfolding finish_token EndsWell rests
    token-EndsWell num e h = number-EndsWell h
    token-EndsWell true_word e h =
        word-EndsWell true_text 3 (λ b. H.on_bool b true) (boolean true)
          (reading true_word is_true (levels m.parser) i.at h)
          (sym (word_place H (levels m.parser)).0 ∙ h) (rec.at_bool m.blob true) (λ j. refl)
    token-EndsWell false_word e h =
        word-EndsWell false_text 4 (λ b. H.on_bool b false) (boolean false)
          (reading false_word is_false (levels m.parser) i.at h)
          (sym (word_place H (levels m.parser)).1 ∙ h) (rec.at_bool m.blob false) (λ j. refl)
    token-EndsWell null_word e h =
        word-EndsWell null_text 3 H.on_null null_value
          (reading null_word is_null (levels m.parser) i.at h)
          (sym (word_place H (levels m.parser)).2 ∙ h) (rec.at_null m.blob) (λ j. refl)
    token-EndsWell _ e h =
        λ z. finish_state-IsComplete m.parser.state 0 m i i.by_state (ap rests e) z

  -- If `jsonPushParserFinish` returns 0 on a parser that agrees with its events, then the events
  -- are those of whole values: no array, object or key is left open.
  pub finish-IsComplete :
      (m : Machine S) → Inv H log rec m → (finish H m).0 ≡ 0 → IsComplete (log (finish H m).1.blob)
  unfolding finish EndsWell
  finish-IsComplete m i z = token-EndsWell m i m.parser.state refl i.by_state z

module _ {S : Type 0} (H : Handlers S) where
  EndsAt : Result S → ℕ → S → Type 0
  EndsAt r rc s = (r.0 ≡ rc) × (r.1.parser.state ≡ end) × (r.1.blob ≡ (H.on_end_json s).1)

  -- `check_pp_end` in the state `end`, and then the second part.
  ended-EndsAt :
      (p : Parser) (rc : ℕ) (s : S)
      → p.state ≡ end
      → let m : Machine S = at_end_of H (record { parser = p; blob = s }) in
        EndsAt (finish_state H m.parser.state rc m) rc s
  unfolding at_end_of resume finish_state EndsAt
  ended-EndsAt p rc s e = elim (Bool-cases (H.on_end_json s).0) [
    | inl r ↦ rw r (refl, refl, refl)
    | inr r ↦
        let m : Machine S = record { parser = p; blob = (H.on_end_json s).1 } in
        let fin : finish_state H p.state rc m ≡ (rc, m) = ap (λ x. finish_state H x rc m) e in
        rw (r, fin) (refl, e, refl)
  ]

  -- The end of a value at the outermost level, and then the second part.
  left-EndsAt :
      (p : Parser) (rc : ℕ) (s : S)
      → levels p ≡ end ∷ []
      → let r = leave H p (rc, s) in EndsAt (finish_state H r.1.parser.state r.0 r.1) rc s
  unfolding leave check_end
  left-EndsAt p rc s l =
      let q = pop_state-Popped p end [] l in
      let at : check_end_in H (pop_state p).state (record { parser = pop_state p; blob = s })
          ≡ at_end_of H (record { parser = pop_state p; blob = s }) =
        unfold check_end_in in
        ap (λ x. check_end_in H x (record { parser = pop_state p; blob = s })) q.state_is in
      rw at (ended-EndsAt (pop_state p) rc s q.state_is)

-- The keywords, each with its text and the index of its last letter.
pub data IsKeyword : State → Bytes → ℕ → Type 0 where
  for_true : IsKeyword true_word true_text 3
  for_false : IsKeyword false_word false_text 4
  for_null : IsKeyword null_word null_text 3

token-incomplete :
    {S : Type 0} (H : Handlers S) (m : Machine S) (word : State) (keyword : Bytes) (last : ℕ)
    → IsKeyword word keyword last
    → (m.parser.word_idx == last) ≡ false
    → finish_token H word m
      ≡ leave H
          (record m.parser { state = error })
          (1, H.on_error m.blob (incomplete_keyword keyword) m.parser.line m.parser.pos)
unfolding finish_token finish_word fail seal report
token-incomplete H m _ _ _ for_true short = rw (finish_word, short) refl
token-incomplete H m _ _ _ for_false short = rw (finish_word, short) refl
token-incomplete H m _ _ _ for_null short = rw (finish_word, short) refl

-- If the input ends within a keyword at the outermost level, `jsonPushParserFinish` reports that
-- the keyword is incomplete and returns 1, but it then calls back the end of the JSON text all the
-- same, and it leaves the parser in the state `end` and not in error.
pub finish-incomplete :
    {S : Type 0} (H : Handlers S) (m : Machine S) (word : State) (keyword : Bytes) (last : ℕ)
    → IsKeyword word keyword last
    → m.parser.state ≡ word
    → levels m.parser ≡ end ∷ []
    → (m.parser.word_idx == last) ≡ false
    → let told = H.on_error m.blob (incomplete_keyword keyword) m.parser.line m.parser.pos in
      ((finish H m).0 ≡ 1)
      × ((finish H m).1.parser.state ≡ end)
      × ((finish H m).1.blob ≡ (H.on_end_json told).1)
unfolding finish EndsAt
finish-incomplete H m word keyword last k s l short =
    let told = H.on_error m.blob (incomplete_keyword keyword) m.parser.line m.parser.pos in
    let token_is =
      ap (λ x. finish_token H x m) s ∙ token-incomplete H m word keyword last k short in
    subst (λ r. EndsAt H (finish_state H r.1.parser.state r.0 r.1) 1 told) (sym token_is)
      (left-EndsAt H (record m.parser { state = error }) 1 told l)
