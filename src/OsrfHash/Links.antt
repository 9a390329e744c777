-- ===== src/OsrfHash/Links.antt =====
-- The linked list of src/libopensrf/osrf_hash.c on bare positions: which are live, and what the next
-- and the previous live position is.
use open_srf.Prelude.{
  ℕ, suc, ◌≤◌, ◌<◌, ◌≡◌, ◌≢◌, refl, ap, sym, is_some, Bool, true, false, Option, none, some, arith,
  ◌==◌, if◌then◌else◌,
}

-- `o` is the least live position that is `k` or more.
abbrev pub IsNext : (ℕ → Bool) → ℕ → Option ℕ → Type 0
IsNext live k none = (j : ℕ) → k ≤ j → live j ≡ false
IsNext live k (some i) = (live i ≡ true) × (k ≤ i) × ((j : ℕ) → k ≤ j → j < i → live j ≡ false)

-- `o` is the greatest live position below `k`.
abbrev pub IsPrev : (ℕ → Bool) → ℕ → Option ℕ → Type 0
IsPrev live k none = (j : ℕ) → j < k → live j ≡ false
IsPrev live k (some i) = (live i ≡ true) × (i < k) × ((j : ℕ) → i < j → j < k → live j ≡ false)

-- the live positions without `i`
abbrev pub without : (ℕ → Bool) → ℕ → ℕ → Bool
without live i j = if i == j then false else live j

-- the live positions and `n`
abbrev pub with : (ℕ → Bool) → ℕ → ℕ → Bool
with live n j = if n == j then true else live j

-- where the positions behind `o` begin, and where those ahead of `o` end, below `n`
abbrev pub behind : Option ℕ → ℕ
behind none = 0
behind (some p) = suc p

abbrev pub ahead : ℕ → Option ℕ → ℕ
ahead n none = n
ahead n (some j) = j

module _ (live : ℕ → Bool) where
  pub IsNext-without :
      (i k : ℕ) (o : Option ℕ) → IsNext live k o → o ≢ some i → IsNext (without live i) k o
  IsNext-without i k none h ne = λ j m. ground (arith, h j m)
  IsNext-without i k (some l) h ne =
      let d : i ≢ l = λ e. ne (ap some (sym e)) in
      (ground (arith, h.0), h.1, λ j m m'. ground (arith, h.2 j m m'))

  pub IsPrev-without :
      (i k : ℕ) (o : Option ℕ) → IsPrev live k o → o ≢ some i → IsPrev (without live i) k o
  IsPrev-without i k none h ne = λ j m. ground (arith, h j m)
  IsPrev-without i k (some l) h ne =
      let d : i ≢ l = λ e. ne (ap some (sym e)) in
      (ground (arith, h.0), h.1, λ j m m'. ground (arith, h.2 j m m'))

  -- taking out `i` joins what is before it and what is behind it
  pub IsNext-join :
      (i : ℕ) (o o' : Option ℕ)
      → IsPrev live i o
      → IsNext live (suc i) o'
      → IsNext (without live i) (behind o) o'
  IsNext-join i none none p h = λ j m. ground (arith, h j, p j)
  IsNext-join i (some l) none p h = λ j m. ground (arith, h j, p.2 j)
  IsNext-join i none (some r) p h =
      (ground (arith, h.0, h.1), omega arith, λ j m m'. ground (arith, h.2 j, p j))
  IsNext-join i (some l) (some r) p h =
      (ground (arith, h.0, h.1), omega (arith, h.1, p.1), λ j m m'. ground (arith, h.2 j, p.2 j))

  pub IsPrev-join :
      (i n : ℕ) (o o' : Option ℕ)
      → i < n
      → IsPrev live i o
      → IsNext live (suc i) o'
      → ((j : ℕ) → n ≤ j → live j ≡ false)
      → IsPrev (without live i) (ahead n o') o
  IsPrev-join i n none none b p h e = λ j m. ground (arith, h j, p j)
  IsPrev-join i n (some l) none b p h e =
      (ground (arith, p.0, p.1), omega (arith, p.1), λ j m m'. ground (arith, h j, p.2 j))
  IsPrev-join i n none (some r) b p h e = λ j m. ground (arith, h.2 j, p j)
  IsPrev-join i n (some l) (some r) b p h e =
      (ground (arith, p.0, p.1), omega (arith, h.1, p.1), λ j m m'. ground (arith, h.2 j, p.2 j))

  -- only the position before `i` has `i` for its next one, and the other way round
  pub behind_unique :
      (i j : ℕ) (o : Option ℕ)
      → live j ≡ true
      → IsNext live (suc j) (some i)
      → IsPrev live i o
      → o ≡ some j
  behind_unique i j none a h p = absurd (ground (arith, p j, h.1))
  behind_unique i j (some l) a h p = ap some (ground (arith, p.2 j, h.2 l, p.0, p.1, h.1))

  pub ahead_unique :
      (i j : ℕ) (o : Option ℕ)
      → live j ≡ true
      → IsPrev live j (some i)
      → IsNext live (suc i) o
      → o ≡ some j
  ahead_unique i j none a h p = absurd (ground (arith, p j, h.1))
  ahead_unique i j (some r) a h p = ap some (ground (arith, p.2 j, h.2 r, p.0, p.1, h.1))

  pub first_unique : (i : ℕ) (o : Option ℕ) → IsNext live 0 (some i) → IsPrev live i o → o ≡ none
  first_unique i none h p = refl
  first_unique i (some l) h p = absurd (ground (arith, h.2 l, p.0, p.1))

  pub last_unique :
      (i n : ℕ) (o : Option ℕ)
      → IsPrev live n (some i)
      → IsNext live (suc i) o
      → ((j : ℕ) → n ≤ j → live j ≡ false)
      → o ≡ none
  last_unique i n none h p e = refl
  last_unique i n (some r) h p e = absurd (ground (arith, h.2 r, p.0, p.1, e r))

  -- a new position behind all others
  pub IsNext-with :
      (n k : ℕ) (o : Option ℕ)
      → k ≤ n
      → ((j : ℕ) → n ≤ j → live j ≡ false)
      → IsNext live k o
      → IsNext (with live n) k (if is_some o then o else some n)
  IsNext-with n k none b e h = (ground arith, b, λ j m m'. ground (arith, h j))
  IsNext-with n k (some l) b e h =
      (ground (arith, h.0), h.1, λ j m m'. ground (arith, h.2 j, e l, h.0))

  pub IsPrev-with : (n k : ℕ) (o : Option ℕ) → k ≤ n → IsPrev live k o → IsPrev (with live n) k o
  IsPrev-with n k none b h = λ j m. ground (arith, h j)
  IsPrev-with n k (some l) b h = (ground (arith, h.0, h.1), h.1, λ j m m'. ground (arith, h.2 j))

  pub IsPrev-new : (n : ℕ) → IsPrev (with live n) (suc n) (some n)
  IsPrev-new n = (ground arith, omega arith, λ j m m'. absurd (omega arith))

  -- the position before the new one is the last, and no other has nothing behind it
  pub IsNext-new : (n l : ℕ) → IsPrev live n (some l) → IsNext (with live n) (suc l) (some n)
  IsNext-new n l h = (ground arith, h.1, λ j m m'. ground (arith, h.2 j))

  pub last_alone :
      (n l j : ℕ)
      → live j ≡ true
      → j < n
      → IsNext live (suc j) none
      → IsPrev live n (some l)
      → l ≡ j
  last_alone n l j a b h p = ground (arith, h l, p.2 j, p.0, p.1)
