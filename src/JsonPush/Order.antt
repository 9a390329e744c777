-- ===== src/JsonPush/Order.antt =====
-- What repeated calls of `jsonPush` of src/libopensrf/jsonpush.c call back.
use open_srf.Prelude.{
  ℕ, suc, ◌≡◌, refl, ◌∙◌, ap, inl, inr, true, false, Option, none, some, List, [], ◌∷◌, arith,
  Bytes, ◌==◌, Bool-cases,
}
use open_srf.JsonPush.State.{
  State, error, Handlers, Machine, Result, report, new_parser, previous_error,
}
use open_srf.JsonPush.Drive.{
  Fed, onward, stopped, is_error, max_rounds, next_byte, advance, clear_again, seal, seal_option,
  dispatch, feed, run, push,
}
use open_srf.JsonPush.Events.{Event, fresh, follow, IsRecorder}
use open_srf.JsonPush.Nesting.{levels, place, Followed}
use open_srf.JsonPush.Steps.{Inv, Kept, agreeing, stopping}
use open_srf.JsonPush.Sound.{dispatch-Kept, advance-Inv, clear_again-Inv}
use open_srf.JsonPush.Total.{rests, Settled, dispatch-again, dispatch-Settled}

-- A chunk, with the byte of the buffer behind it.
pub record Chunk : Type 0 where
  pub bytes : Bytes
  pub after : ℕ

-- Calls of `jsonPush`, whatever they return: the machine that is left.
unfoldable pub push_all : {S : Type 0} → Handlers S → List Chunk → Machine S → Option (Machine S)
push_all H [] m = some m
push_all H (chunk ∷ chunks) m = elim (push H chunk.bytes chunk.after m) [
  | none ↦ none
  | some r ↦ push_all H chunks r.1
]

module _ {S : Type 0} (H : Handlers S) (log : S → List Event) (rec : IsRecorder H log) where
  -- The loop at one character has an end, and keeps the agreement.
  data Going : Option (Fed S) → Type 0 where
    goes : (m : Machine S) → Inv H log rec m → Going (some (onward m))
    stops : (rc : ℕ) (m : Machine S) → Kept H log rec (rc, m) → Going (some (stopped rc m))

  pub Kept-Inv : (r : Result S) → Kept H log rec r → (r.0 == 0) ≡ true → Inv H log rec r.1
  Kept-Inv r (agreeing i) e = i
  Kept-Inv r (stopping one f) e = absurd (ground arith)

  not_error : (m : Machine S) → Inv H log rec m → is_error m.parser.state ≡ false
  not_error m i = go m.parser.state i.by_state
    where
      go : (s : State) → place s (levels m.parser) ≡ some i.at → is_error s ≡ false
      go error h = absurd (unfold place in cc)
      go _ h = unfold is_error in refl

  module _ (c next : ℕ) where
    feed_step :
        (n : ℕ) (m : Machine S)
        → Inv H log rec m
        → ((dispatch H m.parser.state m c).1.parser.again == 0 ≡ false
            → Inv H log rec (dispatch H m.parser.state m c).1
            → Going (feed H n c next (clear_again (dispatch H m.parser.state m c).1)))
        → Going (feed H (suc n) c next m)
    unfolding feed
    feed_step n m i again =
        let r = dispatch H m.parser.state m c in
        let k = dispatch-Kept H log rec m c i in
        elim (Bool-cases (r.0 == 0)) [
          | inl z ↦
              let i' = Kept-Inv r k z in
              elim (Bool-cases (r.1.parser.again == 0)) [
                | inl a ↦ rw (z, a) (goes (advance next r.1) (advance-Inv H log rec next r.1 i'))
                | inr a ↦ rw (z, a, not_error r.1 i') (again a i')
              ]
          | inr z ↦ rw z (stops r.0 r.1 k)
        ]

    -- in a state that reads nothing again
    feed_resting :
        (n : ℕ) (m : Machine S)
        → Inv H log rec m
        → m.parser.again ≡ 0
        → rests m.parser.state ≡ true
        → Going (feed H (suc n) c next m)
    feed_resting n m i a r =
        feed_step n m i
          (λ b j. let same = dispatch-again H m.parser.state m c r in absurd (ground arith))

    -- where no character is to be read again
    feed_clear :
        (n : ℕ) (m : Machine S)
        → Inv H log rec m
        → m.parser.again ≡ 0
        → Going (feed H (suc (suc n)) c next m)
    unfolding Settled
    feed_clear n m i a = feed_step (suc n) m i (λ b j.
        elim (dispatch-Settled H m.parser.state m c i.at i.by_state) [
          | inl same ↦ absurd (ground arith)
          | inr r ↦
              feed_resting n _ (clear_again-Inv H log rec _ j) (unfold clear_again in refl)
                (unfold clear_again in r)
        ])

    feed-Going : (m : Machine S) → Inv H log rec m → Going (feed H max_rounds c next m)
    feed-Going m i =
        feed_step 2 m i
          (λ b j. feed_clear 0 _ (clear_again-Inv H log rec _ j) (unfold clear_again in refl))

  -- A result is there, and it keeps the agreement.
  data Ran : Option (Result S) → Type 0 where
    ran : (r : Result S) → Kept H log rec r → Ran (some r)

  run-Ran : (s : Bytes) (after : ℕ) (m : Machine S) → Inv H log rec m → Ran (run H s after m)
  unfolding run
  run-Ran [] after m i = ran (0, m) (agreeing i)
  run-Ran (c ∷ s) after m i = rw (not_error m i) (
      fed (feed H max_rounds c (next_byte s after) m) (feed-Going c (next_byte s after) m i)
        (λ m' j. run-Ran s after m' j))
    where
      fed :
          (f : Option (Fed S))
          → Going f
          → ((m' : Machine S) → Inv H log rec m' → Ran (run H s after m'))
          → Ran (elim f [
            | none ↦ none
            | some (onward m') ↦ run H s after m'
            | some (stopped rc m') ↦ some (rc, m')
          ])
      fed _ (goes m' j) more = more m' j
      fed _ (stops rc m' k) more = ran (rc, m') k

  -- What holds between calls: the agreement, or a parser in error behind events in order.
  pub data Sound (m : Machine S) : Type 0 where
    agrees : Inv H log rec m → Sound m
    in_error : m.parser.state ≡ error → Followed (log m.blob) → Sound m

  seal-Sound : (r : Result S) → Kept H log rec r → Sound (seal r).1
  unfolding seal
  seal-Sound r k = elim (Bool-cases (r.0 == 1)) [
    | inl e ↦ rw e (in_error refl (events k))
    | inr e ↦ rw e (inv k e)
  ]
    where
      events : Kept H log rec r → Followed (log r.1.blob)
      events (agreeing i) = (i.at, i.by_events)
      events (stopping one f) = f

      inv : Kept H log rec r → (r.0 == 1) ≡ false → Sound r.1
      inv (agreeing i) e = agrees i
      inv (stopping one f) e = absurd (ground arith)

  -- `jsonPush` always returns, and what holds between calls holds again.
  pub push-Sound :
      (s : Bytes) (after : ℕ) (m : Machine S)
      → Sound m
      → (r : Result S) × (push H s after m ≡ some r) × Sound r.1
  unfolding push seal_option
  push-Sound s after m (agrees i) =
      rw (not_error m i) (ended (run H s after m) (run-Ran s after m i))
    where
      ended :
          (o : Option (Result S)) → Ran o → (r : Result S) × (seal_option o ≡ some r) × Sound r.1
      ended _ (ran r k) = (seal r, refl, seal-Sound r k)
  push-Sound s after m (in_error e f) = (
    report H m previous_error,
    unfold is_error in rw e refl,
    unfold report in in_error e (f.0, ap follow (rec.at_error m.blob previous_error _ _) ∙ f.1),
  )

  push_all-Sound :
      (chunks : List Chunk) (m : Machine S)
      → Sound m
      → (m' : Machine S) × (push_all H chunks m ≡ some m') × Sound m'
  unfolding push_all
  push_all-Sound [] m i = (m, refl, i)
  push_all-Sound (chunk ∷ chunks) m i =
      let (r, is, j) = push-Sound chunk.bytes chunk.after m i in
      rw (push_all, is) (push_all-Sound chunks r.1 j)

  start-Inv :
      (blob : S) → log blob ≡ [] → Inv H log rec (record { parser = new_parser; blob = blob })
  unfolding new_parser place follow
  start-Inv blob e = record { at = fresh ∷ []; by_state = refl; by_events = rw e refl }

  -- With callbacks that log their events, whatever else they do and return: calls of `jsonPush` on a
  -- new parser always return, whatever the chunks, and if the log starts empty then the events that
  -- were called back come in the order of JSON values:
  -- values, keys and ends only where they may stand, and every end closes what was opened last.
  pub push_all-Followed :
      (chunks : List Chunk) (blob : S)
      → log blob ≡ []
      → (m' : Machine S) × (push_all H chunks (record { parser = new_parser; blob = blob })
          ≡ some m')
        × Followed (log m'.blob)
  push_all-Followed chunks blob e =
      let (m', is, j) = push_all-Sound chunks _ (agrees (start-Inv blob e)) in (m', is, events m' j)
    where
      events : (m : Machine S) → Sound m → Followed (log m.blob)
      events m (agrees i) = (i.at, i.by_events)
      events m (in_error s f) = f
