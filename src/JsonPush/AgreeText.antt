-- ===== src/JsonPush/AgreeText.antt =====
-- Strings in src/libopensrf/jsonpush.c, against the nesting of the events.
use open_srf.Prelude.{
  ℕ, zero, suc, ◌+◌, ◌≡◌, refl, sym, subst, ◌∙◌, inl, inr, some, List, [], ◌∷◌, arith, ◌++◌,
  Option-cases,
}
use open_srf.StringArray.{add}
use open_srf.JsonPush.State.{
  State, str, slash, utf8, obj_key, array_value, obj_value, end, Handlers, Machine, leave,
  pop_state, duplicate_key, illegal_in_string, unexpected_escape, codes_for_nul, non_hex,
}
use open_srf.JsonPush.Literals.{
  do_str, do_slash, do_utf8, end_text, end_key, end_string, add_hex, end_utf8, escaped, hex_value,
  encode_point,
}
use open_srf.JsonPush.Events.{Event, string, object, member, Place, follow, IsRecorder}
use open_srf.JsonPush.Nesting.{levels, before, before_text, place}
use open_srf.JsonPush.Steps.{Kept, agreeing, report-Kept, pop_state-Popped}
use open_srf.JsonPush.AgreeValues.{open_with-Opened}
use open_srf.JsonPush.AgreeLiterals.{reported-Kept, goes_on}

module _ {S : Type 0} (H : Handlers S) (log : S → List Event) (rec : IsRecorder H log)
    (m : Machine S) (c : ℕ) (k : Place) (followed : follow (log m.blob) ≡ some k) where
  key_ended :
      (rest : List State)
      → levels m.parser ≡ obj_key ∷ rest
      → before_text obj_key rest ≡ some k
      → Kept H log rec (end_key H (record m { parser = pop_state m.parser }))
  unfolding end_key place follow
  key_ended rest l h =
      let o = open_with-Opened object rest k h in
      let q = pop_state-Popped m.parser obj_key rest l in
      let k₁ =
        report-Kept H log rec (record m { parser = pop_state m.parser })
          (duplicate_key (pop_state m.parser).buf) (k, followed) in
      let back = member ∷ o.outer in
      let reported = H.on_obj_key m.blob (pop_state m.parser).buf in
      let place_is : place (pop_state m.parser).state (levels (pop_state m.parser)) ≡ some back =
        rw (q.state_is, q.levels_are, o.stack_is, o.outer_is) refl in
      let events_are : follow (log reported.1) ≡ some back =
        rw (rec.at_obj_key m.blob (pop_state m.parser).buf, followed, o.place_is) refl in
      let k₂ : Kept H log rec (
        reported.0,
        record {
          parser = record (pop_state m.parser) {
            keylist = add (pop_state m.parser).keylist (pop_state m.parser).buf;
          };
          blob = reported.1;
        },
      ) =
        agreeing (record { at = back; by_state = place_is; by_events = events_are }) in
      ground arith

  -- A text has ended as a value.
  string_ended :
      (back : State) (rest : List State)
      → levels m.parser ≡ back ∷ rest
      → before back rest ≡ some k
      → Kept H log rec (end_string H (record m { parser = pop_state m.parser }))
  unfolding end_string leave
  string_ended back rest l h =
      let t = (pop_state m.parser).buf in
      reported-Kept H log rec m.parser (H.on_string m.blob t).0 m.blob (H.on_string m.blob t).1 k
        (string t) (record { back = back; rest = rest; stack_is = l; before_is = h }) followed
        (rec.at_string m.blob t) (λ j. refl)

  -- A text has ended: as a key if its object is on the stack, else as a value.
  text_ended :
      (back : State) (rest : List State)
      → levels m.parser ≡ back ∷ rest
      → before_text back rest ≡ some k
      → Kept H log rec (end_text H back (record m { parser = pop_state m.parser }))
  unfolding end_text
  text_ended obj_key rest l h = key_ended rest l h
  text_ended end rest l h = string_ended end rest l h
  text_ended array_value rest l h = string_ended array_value rest l h
  text_ended obj_value rest l h = string_ended obj_value rest l h
  text_ended _ rest l h = absurd (cc)

  -- The states of a text stand for the same place.
  text_states : (ss : List State) → (place slash ss ≡ place str ss) × (place utf8 ss ≡ place str ss)
  unfolding place
  text_states [] = (refl, refl)
  text_states (b ∷ ss) = (refl, refl)

  str_ended :
      (ss : List State)
      → levels m.parser ≡ ss
      → place str ss ≡ some k
      → Kept H log rec
          (end_text H (pop_state m.parser).state (record m { parser = pop_state m.parser }))
  unfolding place
  str_ended [] l g = absurd (cc)
  str_ended (back ∷ rest) l g =
      subst (λ b. Kept H log rec (end_text H b (record m { parser = pop_state m.parser })))
        (sym (pop_state-Popped m.parser back rest l).state_is) (text_ended back rest l g)

  pub do_str-Kept :
      m.parser.state ≡ str → place str (levels m.parser) ≡ some k → Kept H log rec (do_str H m c)
  unfolding do_str
  do_str-Kept s h =
      let k₁ = str_ended (levels m.parser) refl h in
      let k₂ =
        goes_on H log rec m c k followed slash (record m.parser { state = slash }) refl refl
          ((text_states (levels m.parser)).0 ∙ h) in
      let k₃ = report-Kept H log rec m (illegal_in_string c) (k, followed) in
      let k₄ =
        goes_on H log rec m c k followed str (record m.parser { buf = m.parser.buf ++ c ∷ [] }) s
          refl h in
      ground arith

  pub do_slash-Kept :
      m.parser.state ≡ slash
      → place slash (levels m.parser) ≡ some k
      → Kept H log rec (do_slash H m c)
  unfolding do_slash
  do_slash-Kept s h =
      let (as_str, as_utf8) = text_states (levels m.parser) in
      let k₁ = λ (d : ℕ).
        goes_on H log rec m c k followed str
          (record m.parser { buf = m.parser.buf ++ d ∷ []; state = str }) refl refl
          (sym as_str ∙ h) in
      let k₂ =
        goes_on H log rec m c k followed utf8
          (record m.parser { word_idx = 0; point_code = 0; state = utf8 }) refl refl
          (as_utf8 ∙ sym as_str ∙ h) in
      let k₃ = report-Kept H log rec m (unexpected_escape c) (k, followed) in
      elim (Option-cases (escaped c)) [
        | inl e ↦ rw (do_slash, e) (ground arith)
        | inr (d, e) ↦ rw (do_slash, e) (k₁ d)
      ]

  hex_added :
      (hex i : ℕ)
      → m.parser.state ≡ utf8
      → place utf8 (levels m.parser) ≡ some k
      → Kept H log rec (add_hex H m hex i)
  unfolding add_hex end_utf8
  hex_added hex zero s h = goes_on H log rec m c k followed utf8 _ s refl h
  hex_added hex (suc zero) s h = goes_on H log rec m c k followed utf8 _ s refl h
  hex_added hex (suc (suc zero)) s h = goes_on H log rec m c k followed utf8 _ s refl h
  hex_added hex (suc (suc (suc i))) s h =
      let code = m.parser.point_code + hex in
      let k₁ = report-Kept H log rec m codes_for_nul (k, followed) in
      let k₂ =
        goes_on H log rec m c k followed str
          (record m.parser { buf = m.parser.buf ++ encode_point code; state = str }) refl refl
          (sym (text_states (levels m.parser)).1 ∙ h) in
      ground arith

  pub do_utf8-Kept :
      m.parser.state ≡ utf8 → place utf8 (levels m.parser) ≡ some k → Kept H log rec (do_utf8 H m c)
  unfolding do_utf8
  do_utf8-Kept s h =
      let k₁ = hex_added (hex_value c) m.parser.word_idx s h in
      let k₂ = report-Kept H log rec m (non_hex c) (k, followed) in ground arith
