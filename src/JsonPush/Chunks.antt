-- ===== src/JsonPush/Chunks.antt =====
-- `jsonPush` of src/libopensrf/jsonpush.c on a text that comes in several chunks.
use open_srf.Prelude.{
  ℕ, zero, suc, ◌≡◌, refl, sym, ◌∙◌, ap, inl, inr, true, false, Option, none, some, [], ◌∷◌, ◌++◌,
  arith, Bytes, ◌==◌, Bool-cases,
}
use open_srf.JsonPush.State.{Handlers, Machine, Result, report}
use open_srf.JsonPush.Drive.{
  Fed, onward, stopped, is_error, max_rounds, next_byte, clear_again, seal, seal_option, dispatch,
  feed, run, push,
}

next_byte-++ :
    (s t : Bytes) (after : ℕ) → next_byte (s ++ t) after ≡ next_byte s (next_byte t after)
next_byte-++ [] t after = refl
next_byte-++ (c ∷ s) t after = refl

module _ {S : Type 0} (H : Handlers S) where
  -- The loop ends within a chunk with code 0 only in error.
  feed-stopped :
      (n c next : ℕ) (m m' : Machine S)
      → feed H n c next m ≡ some (stopped 0 m')
      → is_error m'.parser.state ≡ true
  unfolding feed clear_again
  feed-stopped zero c next m m' h = absurd (cc)
  feed-stopped (suc n) c next m m' h =
      let again = feed-stopped n c next (clear_again (dispatch H m.parser.state m c).1) m' in
      ground arith

  -- One character of the loop.
  run-next :
      (c : ℕ) (s : Bytes) (after : ℕ) (m : Machine S)
      → is_error m.parser.state ≡ false
      → run H (c ∷ s) after m ≡ elim (feed H max_rounds c (next_byte s after) m) [
        | none ↦ none
        | some (onward k) ↦ run H s after k
        | some (stopped rc k) ↦ some (rc, k)
      ]
  unfolding run
  run-next c s after m x = rw (run, x) refl

  run-onward :
      (s t : Bytes) (after : ℕ) (m m' : Machine S)
      → run H s (next_byte t after) m ≡ some (0, m')
      → is_error m'.parser.state ≡ false
      → run H (s ++ t) after m ≡ run H t after m'
  unfolding run
  run-onward [] t after m m' h e = ap (run H t after) (ground arith)
  run-onward (c ∷ s) t after m m' h e = elim (Bool-cases (is_error m.parser.state)) [
    | inl x ↦ absurd (ground arith)
    | inr x ↦
        run-next c (s ++ t) after m x
        ∙ rw (next_byte-++ s t after) (
            fed (feed H max_rounds c (next_byte s (next_byte t after)) m) refl
              (sym (run-next c s (next_byte t after) m x) ∙ h)
              (λ k g. run-onward s t after k m' g e))
  ]
    where
      fed :
          (f : Option (Fed S))
          → feed H max_rounds c (next_byte s (next_byte t after)) m ≡ f
          → elim f [
            | none ↦ none
            | some (onward k) ↦ run H s (next_byte t after) k
            | some (stopped rc k) ↦ some (rc, k)
          ]
            ≡ some (0, m')
          → ((k : Machine S)
              → run H s (next_byte t after) k ≡ some (0, m')
              → run H (s ++ t) after k ≡ run H t after m')
          → elim f [
            | none ↦ none
            | some (onward k) ↦ run H (s ++ t) after k
            | some (stopped rc k) ↦ some (rc, k)
          ]
            ≡ run H t after m'
      fed none q g more = absurd (cc)
      fed (some (onward k)) q g more = more k g
      fed (some (stopped rc k)) q g more =
          let z : rc ≡ 0 = ground arith in
          let k_is : k ≡ m' = ground arith in
          (let bad = feed-stopped max_rounds c _ m k (q ∙ ap (λ i. some (stopped i k)) z) in
            absurd (ground arith))

  run-stopped :
      (s t : Bytes) (after rc : ℕ) (m m' : Machine S)
      → run H s (next_byte t after) m ≡ some (rc, m')
      → (rc == 0) ≡ false
      → run H (s ++ t) after m ≡ some (rc, m')
  unfolding run
  run-stopped [] t after rc m m' h e = absurd (ground arith)
  run-stopped (c ∷ s) t after rc m m' h e = elim (Bool-cases (is_error m.parser.state)) [
    | inl x ↦ absurd (ground arith)
    | inr x ↦
        run-next c (s ++ t) after m x
        ∙ rw (next_byte-++ s t after) (
            fed (feed H max_rounds c (next_byte s (next_byte t after)) m)
              (sym (run-next c s (next_byte t after) m x) ∙ h)
              (λ k g. run-stopped s t after rc k m' g e))
  ]
    where
      fed :
          (f : Option (Fed S))
          → elim f [
            | none ↦ none
            | some (onward k) ↦ run H s (next_byte t after) k
            | some (stopped rc k) ↦ some (rc, k)
          ]
            ≡ some (rc, m')
          → ((k : Machine S)
              → run H s (next_byte t after) k ≡ some (rc, m')
              → run H (s ++ t) after k ≡ some (rc, m'))
          → elim f [
            | none ↦ none
            | some (onward k) ↦ run H (s ++ t) after k
            | some (stopped rc k) ↦ some (rc, k)
          ]
            ≡ some (rc, m')
      fed none g more = absurd (cc)
      fed (some (onward k)) g more = more k g
      fed (some (stopped rc k)) g more = g

  push-run :
      (s : Bytes) (after : ℕ) (m : Machine S)
      → is_error m.parser.state ≡ false
      → push H s after m ≡ seal_option (run H s after m)
  unfolding push
  push-run s after m x = rw (push, x) refl

  seal-inverse :
      (o : Option (Result S)) (m' : Machine S) → seal_option o ≡ some (0, m') → o ≡ some (0, m')
  unfolding seal_option seal
  seal-inverse none m' h = absurd (cc)
  seal-inverse (some (rc, k)) m' h = ground arith

  -- A parser that `jsonPush` leaves with code 0 was not in error.
  push-no_error :
      (s : Bytes) (after : ℕ) (m m' : Machine S)
      → push H s after m ≡ some (0, m')
      → is_error m.parser.state ≡ false
  unfolding push report
  push-no_error s after m m' h = ground arith

  -- If `jsonPush` takes the first part of a text with code 0 and is not in error afterwards, then
  -- pushing the whole text as one chunk gives what pushing the rest as a second chunk gives: the
  -- same code, callbacks and parser, or none for both. `after` is the byte behind the whole text,
  -- and the byte behind the first part is the next one of the text.
  pub push-onward :
      (s t : Bytes) (after : ℕ) (m m' : Machine S)
      → push H s (next_byte t after) m ≡ some (0, m')
      → is_error m'.parser.state ≡ false
      → push H (s ++ t) after m ≡ push H t after m'
  push-onward s t after m m' h e =
      let x = push-no_error s (next_byte t after) m m' h in
      let ran = seal-inverse _ m' (sym (push-run s (next_byte t after) m x) ∙ h) in
      push-run (s ++ t) after m x
      ∙ ap seal_option (run-onward s t after m m' ran e)
      ∙ sym (push-run t after m' e)

  seal-code :
      (o : Option (Result S)) (rc : ℕ) (m' : Machine S)
      → seal_option o ≡ some (rc, m')
      → (k : Machine S) × (o ≡ some (rc, k))
  unfolding seal_option seal
  seal-code none rc m' h = absurd (cc)
  seal-code (some (code, k)) rc m' h = (k, ground arith)

  -- If `jsonPush` ends the first part of a text with a code other than 0, then pushing the whole
  -- text as one chunk ends with that code and the same parser: what is behind is not read.
  pub push-stopped :
      (s t : Bytes) (after rc : ℕ) (m m' : Machine S)
      → push H s (next_byte t after) m ≡ some (rc, m')
      → (rc == 0) ≡ false
      → push H (s ++ t) after m ≡ some (rc, m')
  unfolding push
  push-stopped s t after rc m m' h e = elim (Bool-cases (is_error m.parser.state)) [
    | inl x ↦ refused x ∙ h
    | inr x ↦
        let first = push-run s (next_byte t after) m x in
        let (k, ran) = seal-code _ rc m' (sym first ∙ h) in
        push-run (s ++ t) after m x
        ∙ ap seal_option (run-stopped s t after rc m k ran e ∙ sym ran)
        ∙ sym first
        ∙ h
  ]
    where
      refused :
          is_error m.parser.state ≡ true → push H (s ++ t) after m ≡ push H s (next_byte t after) m
      refused x = rw (push, x) refl
