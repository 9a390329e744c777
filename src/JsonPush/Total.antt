-- ===== src/JsonPush/Total.antt =====
-- How often the loop of `jsonPush` of src/libopensrf/jsonpush.c reads one character.
use open_srf.Prelude.{
  ℕ, zero, suc, ◌+◌, ◌≡◌, refl, sym, subst, ◌∙◌, ◌⊎◌, inl, inr, Bool, true, false, some, List, [],
  ◌∷◌, arith, Bytes, Bool-cases, Option-cases,
}
use open_srf.JsonPush.State.{
  State, begin, str, slash, utf8, num, array_begin, array_value, array_comma, obj_begin, obj_key,
  obj_colon, obj_value, obj_comma, true_word, false_word, null_word, end, error, StateNode, Parser,
  Handlers, Machine, Result, report, leave, pop_from, pop_state, check_end, check_end_in, at_end,
  resume, push_state, Complaint, unexpected_at_begin, unexpected_at_array, expected_array_value,
  unexpected_after_colon,
}
use open_srf.JsonPush.Values.{
  goto, enter, enter_text, enter_word, enter_after, begin_value, do_begin, do_array_begin,
  do_array_value, do_array_comma, do_obj_begin, do_obj_key, do_obj_colon, do_obj_value,
  do_obj_comma, do_end,
}
use open_srf.JsonPush.Literals.{
  do_str, do_slash, do_utf8, do_num, do_keyword, do_true, do_false, do_null, end_text, end_key,
  end_string, add_hex, end_utf8, escaped, hex_value, valid_number, found_keyword, true_text,
  false_text, null_text, Found, going, finished, wrong,
}
use open_srf.JsonPush.Drive.{dispatch}
use open_srf.JsonPush.Events.{Place}
use open_srf.JsonPush.Nesting.{levels, before, place}
use open_srf.JsonPush.Steps.{pop_state-Popped}

-- No character is read again when this state has read it.
unfoldable pub rests : State → Bool
rests num = false
rests true_word = false
rests false_word = false
rests null_word = false
rests _ = true

pop_from-again : (nodes : List StateNode) (p : Parser) → (pop_from nodes p).again ≡ p.again
unfolding pop_from
pop_from-again [] p = refl
pop_from-again (n ∷ ns) p = refl

pop_state-again : (p : Parser) → (pop_state p).again ≡ p.again
unfolding pop_state
pop_state-again p = pop_from-again p.state_stack p

module _ {S : Type 0} (H : Handlers S) where
  at_end-again : (m : Machine S) → (at_end H m).parser.again ≡ m.parser.again
  unfolding at_end resume
  at_end-again m = elim (Bool-cases (H.on_end_json m.blob).0) [
    | inl e ↦ rw e refl
    | inr e ↦ rw e refl
  ]

  check_end-again : (s : State) (m : Machine S) → (check_end_in H s m).parser.again ≡ m.parser.again
  unfolding check_end_in
  check_end-again end m = at_end-again m
  check_end-again _ m = refl

  leave-again : (p : Parser) (r : ℕ × S) → (leave H p r).1.parser.again ≡ p.again
  unfolding leave check_end
  leave-again p r = check_end-again (pop_state p).state _ ∙ pop_state-again p

  begin_value-again :
      (back : State) (why : Complaint) (m : Machine S) (c : ℕ)
      → (begin_value H back why m c).1.parser.again ≡ m.parser.again
  unfolding begin_value enter_text enter_word enter_after enter push_state report
  begin_value-again back why m c = ground arith

  end_text-again : (s : State) (m : Machine S) → (end_text H s m).1.parser.again ≡ m.parser.again
  unfolding end_text end_key end_string check_end report
  end_text-again obj_key m = ground arith
  end_text-again _ m = check_end-again m.parser.state _

  add_hex-again : (hex i : ℕ) (m : Machine S) → (add_hex H m hex i).1.parser.again ≡ m.parser.again
  unfolding add_hex end_utf8 report
  add_hex-again hex zero m = refl
  add_hex-again hex (suc zero) m = refl
  add_hex-again hex (suc (suc zero)) m = refl
  add_hex-again hex (suc (suc (suc i))) m = ground arith

  do_slash-again : (m : Machine S) (c : ℕ) → (do_slash H m c).1.parser.again ≡ m.parser.again
  unfolding do_slash report
  do_slash-again m c = elim (Option-cases (escaped c)) [
    | inl e ↦ rw (do_slash, e) (ground arith)
    | inr (d, e) ↦ rw (do_slash, e) refl
  ]

  pub dispatch-again :
      (s : State) (m : Machine S) (c : ℕ)
      → rests s ≡ true
      → (dispatch H s m c).1.parser.again ≡ m.parser.again
  unfolding dispatch rests report goto do_begin do_str do_utf8 do_array_begin do_array_value
      do_array_comma do_obj_begin do_obj_key do_obj_colon do_obj_value do_obj_comma do_end
      enter_text enter push_state
  dispatch-again begin m c h =
      let e = begin_value-again end (unexpected_at_begin c) m c in ground arith
  dispatch-again str m c h =
      let e₁ =
        end_text-again (pop_state m.parser).state (record m { parser = pop_state m.parser }) in
      let e₂ = pop_state-again m.parser in ground arith
  dispatch-again slash m c h = do_slash-again m c
  dispatch-again utf8 m c h =
      let e = add_hex-again (hex_value c) m.parser.word_idx m in ground arith
  dispatch-again num m c h = absurd (cc)
  dispatch-again array_begin m c h =
      let e₁ = leave-again m.parser (H.on_end_array m.blob) in
      let e₂ = begin_value-again array_value (unexpected_at_array c) m c in ground arith
  dispatch-again array_value m c h =
      let e₁ = leave-again m.parser (H.on_end_array m.blob) in ground arith
  dispatch-again array_comma m c h =
      let e₂ = begin_value-again array_value (expected_array_value c) m c in ground arith
  dispatch-again obj_begin m c h =
      let e₁ = leave-again m.parser (H.on_end_obj m.blob) in ground arith
  dispatch-again obj_key m c h = ground arith
  dispatch-again obj_colon m c h =
      let e₂ = begin_value-again obj_value (unexpected_after_colon c) m c in ground arith
  dispatch-again obj_value m c h =
      let e₁ = leave-again m.parser (H.on_end_obj m.blob) in ground arith
  dispatch-again obj_comma m c h = ground arith
  dispatch-again true_word m c h = absurd (cc)
  dispatch-again false_word m c h = absurd (cc)
  dispatch-again null_word m c h = absurd (cc)
  dispatch-again end m c h = ground arith
  dispatch-again error m c h = refl

  -- The states that a value can come back to.
  data Backs : State → Type 0 where
    to_end : Backs end
    to_array : Backs array_value
    to_obj : Backs obj_value

  backs : (back : State) (ss : List State) (k : Place) → before back ss ≡ some k → Backs back
  backs end ss k h = to_end
  backs array_value ss k h = to_array
  backs obj_value ss k h = to_obj
  backs _ ss k h = absurd (cc)

  check_end-rests :
      (s : State) (m : Machine S)
      → m.parser.state ≡ s
      → Backs s
      → rests (check_end_in H s m).parser.state ≡ true
  unfolding check_end_in at_end resume rests
  check_end-rests _ m e to_end = elim (Bool-cases (H.on_end_json m.blob).0) [
    | inl r ↦ rw r refl
    | inr r ↦ rw (r, e) refl
  ]
  check_end-rests _ m e to_array = rw e refl
  check_end-rests _ m e to_obj = rw e refl

  leave-rests :
      (p : Parser) (r : ℕ × S) (back : State) (ss : List State) (k : Place)
      → levels p ≡ back ∷ ss
      → before back ss ≡ some k
      → rests (leave H p r).1.parser.state ≡ true
  unfolding leave check_end
  leave-rests p r back ss k l h =
      let q = pop_state-Popped p back ss l in
      check_end-rests (pop_state p).state _ refl (subst Backs (sym q.state_is) (backs back ss k h))

  -- After a number or a keyword, either the parser has left its level or the character was used.
  unfoldable pub Settled : (m : Machine S) → Result S → Type 0
  Settled m r = (r.1.parser.again ≡ m.parser.again) ⊎ (rests r.1.parser.state ≡ true)

  pub reading-left :
      (p : Parser) (r : ℕ × S) (k : Place)
      → place num (levels p) ≡ some k
      → rests (leave H p r).1.parser.state ≡ true
  reading-left p r k h = go (levels p) refl h
    where
      go :
          (ss : List State)
          → levels p ≡ ss
          → place num ss ≡ some k
          → rests (leave H p r).1.parser.state ≡ true
      go [] l g = absurd (unfold place in cc)
      go (b ∷ ss) l g = leave-rests p r b ss k l (unfold place in g)

  do_num-Settled :
      (m : Machine S) (c : ℕ) (k : Place)
      → place num (levels m.parser) ≡ some k
      → Settled m (do_num H m c)
  unfolding do_num report Settled
  do_num-Settled m c k h = elim (Option-cases (valid_number m.parser.buf)) [
    | inl e ↦ rw e (ground arith)
    | inr (t, e) ↦
        let left = reading-left (record m.parser { again = c }) (H.on_number m.blob t) k h in
        rw e (ground arith)
  ]

  do_keyword-Settled :
      (keyword : Bytes) (maxlen : ℕ) (callback : S → ℕ × S) (m : Machine S) (c : ℕ) (k : Place)
      → place num (levels m.parser) ≡ some k
      → Settled m (do_keyword H keyword maxlen callback m c)
  unfolding do_keyword report Settled
  do_keyword-Settled keyword maxlen callback m c k h =
      found (found_keyword (m.parser.word_idx + 1) c keyword maxlen)
    where
      next : Parser
      next = record m.parser { word_idx = m.parser.word_idx + 1 }

      found :
          (f : Found)
          → Settled m (elim f [
            | going ↦ (0, record m { parser = next })
            | finished ↦ leave H (record next { again = c }) (callback m.blob)
            | wrong why ↦ report H (record m { parser = next }) why
          ])
      found going = inl refl
      found finished = inr (reading-left (record next { again = c }) (callback m.blob) k h)
      found (wrong why) = inl refl

  pub word_place :
      (ss : List State)
      → (place true_word ss ≡ place num ss)
        × (place false_word ss ≡ place num ss)
        × (place null_word ss ≡ place num ss)
  unfolding place
  word_place [] = (refl, refl, refl)
  word_place (s ∷ ss) = (refl, refl, refl)

  pub dispatch-Settled :
      (s : State) (m : Machine S) (c : ℕ) (k : Place)
      → place s (levels m.parser) ≡ some k
      → Settled m (dispatch H s m c)
  unfolding dispatch Settled do_true do_false do_null
  dispatch-Settled num m c k h = do_num-Settled m c k h
  dispatch-Settled true_word m c k h =
      do_keyword-Settled true_text 4 (λ b. H.on_bool b true) m c k
        (sym (word_place (levels m.parser)).0 ∙ h)
  dispatch-Settled false_word m c k h =
      do_keyword-Settled false_text 5 (λ b. H.on_bool b false) m c k
        (sym (word_place (levels m.parser)).1 ∙ h)
  dispatch-Settled null_word m c k h =
      do_keyword-Settled null_text 4 H.on_null m c k (sym (word_place (levels m.parser)).2 ∙ h)
  dispatch-Settled begin m c k h = inl (dispatch-again begin m c (unfold rests in refl))
  dispatch-Settled str m c k h = inl (dispatch-again str m c (unfold rests in refl))
  dispatch-Settled slash m c k h = inl (dispatch-again slash m c (unfold rests in refl))
  dispatch-Settled utf8 m c k h = inl (dispatch-again utf8 m c (unfold rests in refl))
  dispatch-Settled array_begin m c k h = inl (dispatch-again array_begin m c (unfold rests in refl))
  dispatch-Settled array_value m c k h = inl (dispatch-again array_value m c (unfold rests in refl))
  dispatch-Settled array_comma m c k h = inl (dispatch-again array_comma m c (unfold rests in refl))
  dispatch-Settled obj_begin m c k h = inl (dispatch-again obj_begin m c (unfold rests in refl))
  dispatch-Settled obj_key m c k h = inl (dispatch-again obj_key m c (unfold rests in refl))
  dispatch-Settled obj_colon m c k h = inl (dispatch-again obj_colon m c (unfold rests in refl))
  dispatch-Settled obj_value m c k h = inl (dispatch-again obj_value m c (unfold rests in refl))
  dispatch-Settled obj_comma m c k h = inl (dispatch-again obj_comma m c (unfold rests in refl))
  dispatch-Settled end m c k h = inl (dispatch-again end m c (unfold rests in refl))
  dispatch-Settled error m c k h = inl (dispatch-again error m c (unfold rests in refl))
