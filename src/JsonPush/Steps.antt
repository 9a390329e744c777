-- ===== src/JsonPush/Steps.antt =====
-- The stack and the callbacks of src/libopensrf/jsonpush.c, against the nesting of the events: what
-- the state handlers share.
use open_srf.Prelude.{
  ℕ, ◌≡◌, refl, ◌∙◌, ap, ◌⊎◌, inl, inr, some, List, [], ◌∷◌, map, arith, Bool-cases,
}
use open_srf.JsonPush.State.{
  State, array_value, obj_value, end, StateNode, Parser, Complaint, Handlers, Machine, Result,
  push_state, pop_from, pop_state, leave, check_end, check_end_in, at_end, resume, report,
}
use open_srf.JsonPush.Events.{Event, fresh, done, Place, follow, IsRecorder}
use open_srf.JsonPush.Nesting.{levels, frames, place, Agrees, Followed}

pub levels-push_state : (p : Parser) (s : State) → levels (push_state p s) ≡ s ∷ levels p
unfolding push_state
levels-push_state p s = refl

-- Popping brings back the state on top.
pub record Popped (back : State) (ss : List State) (p : Parser) : Type 0 where
  pub state_is : p.state ≡ back
  pub levels_are : levels p ≡ ss

pop_from-Popped :
    (nodes : List StateNode) (p : Parser) (back : State) (ss : List State)
    → map (λ (n : StateNode). n.state) nodes ≡ back ∷ ss
    → Popped back ss (pop_from nodes p)
unfolding pop_from
pop_from-Popped [] p back ss h = absurd (cc)
pop_from-Popped (n ∷ rest) p back ss h = record {
  state_is = ground arith;
  levels_are = ground arith;
}

pub pop_state-Popped :
    (p : Parser) (back : State) (ss : List State)
    → levels p ≡ back ∷ ss
    → Popped back ss (pop_state p)
unfolding pop_state
pop_state-Popped p back ss h = pop_from-Popped p.state_stack p back ss h

-- The states that a value leads back to.
pub frames_back :
    (back : State) (ss : List State) (k : Place)
    → frames (back ∷ ss) ≡ some k
    → ((back ≡ end) × (ss ≡ []) × (k ≡ done ∷ [])) ⊎ ((back ≡ array_value) ⊎ (back ≡ obj_value))
frames_back end [] k h = inl (refl, refl, ground arith)
frames_back end (s ∷ ss) k h = absurd (cc)
frames_back array_value ss k h = inr (inl refl)
frames_back obj_value ss k h = inr (inr refl)
frames_back _ ss k h = absurd (cc)

pub frames-place :
    (back : State) (ss : List State) (k : Place)
    → frames (back ∷ ss) ≡ some k
    → place back ss ≡ some k
unfolding place
frames-place end [] k h = h
frames-place end (s ∷ ss) k h = absurd (cc)
frames-place array_value ss k h = h
frames-place obj_value ss k h = h
frames-place _ ss k h = absurd (cc)

module _ {S : Type 0} (H : Handlers S) (log : S → List Event) (rec : IsRecorder H log) where
  -- the agreement of a parser with what was called back
  abbrev pub Inv : Machine S → Type 0
  Inv m = Agrees m.parser.state (levels m.parser) (log m.blob)

  -- It is kept, or the code 1 stops the parser.
  pub data Kept (r : Result S) : Type 0 where
    agreeing : Inv r.1 → Kept r
    stopping : r.0 ≡ 1 → Followed (log r.1.blob) → Kept r

  pub report-Kept :
      (m : Machine S) (why : Complaint) → Followed (log m.blob) → Kept (report H m why)
  unfolding report
  report-Kept m why f = stopping refl (f.0, ap follow (rec.at_error m.blob why _ _) ∙ f.1)

  at_end-Inv :
      (m : Machine S)
      → m.parser.state ≡ end
      → levels m.parser ≡ []
      → follow (log m.blob) ≡ some (done ∷ [])
      → Inv (at_end H m)
  unfolding at_end resume place follow
  at_end-Inv m s l f = elim (Bool-cases (H.on_end_json m.blob).0) [
    | inl r ↦ record {
      at = fresh ∷ [];
      by_state = rw (r, l);
      by_events = rw (rec.at_end_json m.blob, f, r);
    }
    | inr r ↦ record {
      at = done ∷ [];
      by_state = rw (r, s, l);
      by_events = rw (rec.at_end_json m.blob, f, r);
    }
  ]

  -- After a callback that completed a value.
  pub leave-Inv :
      (p : Parser) (rc : ℕ) (s : S) (back : State) (ss : List State) (k : Place)
      → levels p ≡ back ∷ ss
      → frames (back ∷ ss) ≡ some k
      → follow (log s) ≡ some k
      → Inv (leave H p (rc, s)).1
  unfolding leave check_end
  leave-Inv p rc s back ss k l f e =
      let q = pop_state-Popped p back ss l in
      elim (frames_back back ss k f) [
        | inl (b, n, d) ↦
            let is_end = q.state_is ∙ b in
            rw (is_end, check_end_in)
              (at_end-Inv (record { parser = pop_state p; blob = s }) is_end (q.levels_are ∙ n)
                (e ∙ ap some d))
        | inr other ↦
            let same : check_end_in H (pop_state p).state
                  (record { parser = pop_state p; blob = s })
                ≡ record { parser = pop_state p; blob = s } =
              unfold check_end_in in ground (arith, q.state_is) in
            rw same (record {
              at = k;
              by_state = rw (q.state_is, q.levels_are) (frames-place back ss k f);
              by_events = e;
            })
      ]
