-- ===== src/OsrfList/Valid.antt =====
-- The representation invariant of src/libopensrf/osrf_list.c.
use open_srf.Prelude.{
  ℕ, zero, suc, ◌+◌, ◌-◌, ◌^◌, ◌≤◌, ◌<◌, ◌≡◌, refl, ◌∙◌, ap, ◌⊎◌, inl, inr, Option, none, some,
  List, [], ◌∷◌, arith, ltb, leb, ◌==◌, if◌then◌else◌, Bool-cases, length, get_or, set, replicate,
  length-append, length-replicate, length-set, get_or-set_self, get_or-set_ne,
  get_or-append_replicate, get_or-replicate,
}
use open_srf.OsrfList.{
  list_inc_size, OsrfList, grow, new_list_size, extract, remove, expand, store, set_item, push,
  first_free, push_first, nullify, clear, pop,
}
use native.Mathlib.Decide.{ℕ_discrete}

-- The largest index for which the arithmetic of `osrfListSet` stays within an `int`.
abbrev pub max_position : ℕ
max_position = 2 ^ 31 - 257

-- The array has the length that is recorded, and nothing is stored at or above `size`.
pub record IsValid {A : Type 0} (l : OsrfList A) : Type 0 where
  pub allocated : length l.arrlist ≡ l.arrsize
  pub within : l.size ≤ l.arrsize
  pub int_size : l.arrsize < 2 ^ 31
  pub unused : (i : ℕ) → l.size ≤ i → get_or l.arrlist i none ≡ none

-- The loop of `osrfListSet`, with fuel such that the position is below the size plus the fuel, ends
-- with room for the position and no smaller size, and the size is unchanged or at most 256 above the
-- position.
pub grow_lem :
    (fuel position n : ℕ)
    → position < n + fuel
    → (position < grow fuel position n)
      × (n ≤ grow fuel position n)
      × ((grow fuel position n ≡ n) ⊎ (grow fuel position n ≤ position + list_inc_size))
unfolding grow
grow_lem zero position n h = (omega arith, omega arith, inl refl)
grow_lem (suc fuel) position n h = ground (arith, grow_lem fuel position (n + list_inc_size))

module _ {A : Type 0} where
  pub new_list_size-IsValid : (n : ℕ) → n < 2 ^ 31 → IsValid (new_list_size {A = A} n)
  unfolding new_list_size
  new_list_size-IsValid n h = record {
    allocated = length-replicate _ none;
    within = omega arith;
    int_size = ground arith;
    unused = λ i _. get_or-replicate _ i none;
  }

  -- What `expand` gives: room for the position, and the same slots.
  pub record Expanded (l : OsrfList A) (p : ℕ) (l' : OsrfList A) : Type 0 where
    pub valid : IsValid l'
    pub room : p < l'.arrsize
    pub same_size : l'.size ≡ l.size
    pub same_callback : l'.free_item ≡ l.free_item
    pub same_slots : (i : ℕ) → get_or l'.arrlist i none ≡ get_or l.arrlist i none

  pub expand-Expanded :
      {l : OsrfList A} (p : ℕ) → IsValid l → p ≤ max_position → Expanded l p (expand l p)
  unfolding expand
  expand-Expanded {l} p v h =
      let n = grow (suc p) p l.arrsize in
      let g = grow_lem (suc p) p l.arrsize (omega arith) in
      elim (Bool-cases (ltb l.arrsize n)) [
        | inl more ↦ rw more (record {
          valid = record {
            allocated =
                length-append l.arrlist (replicate (n - l.arrsize) none)
                ∙ ground (arith, length-replicate {A = Option A} (n - l.arrsize) none, v.allocated);
            within = ground arith;
            int_size = ground arith;
            unused = λ i k. get_or-append_replicate l.arrlist _ i none ∙ v.unused i k;
          };
          room = g.0;
          same_size = refl;
          same_callback = refl;
          same_slots = λ i. get_or-append_replicate l.arrlist _ i none;
        })
        | inr enough ↦ rw enough (record {
          valid = v;
          room = ground arith;
          same_size = refl;
          same_callback = refl;
          same_slots = λ i. refl;
        })
      ]

  -- A slot that is set to `x` reads `x`, the others as before.
  pub slot-set :
      (xs : List (Option A)) (p i : ℕ) (x : Option A)
      → p < length xs
      → get_or (set xs p x) i none ≡ (if p == i then x else get_or xs i none)
  slot-set xs p i x h = elim (ℕ_discrete p i) [
    | yes e ↦ rw e (get_or-set_self xs i x none (omega arith) ∙ ground arith)
    | no ne ↦ get_or-set_ne xs p i x none ne ∙ ground arith
  ]

  pub extract-IsValid : {l : OsrfList A} (p : ℕ) → IsValid l → IsValid (extract l p).0
  unfolding extract
  extract-IsValid {l} p v = elim (Bool-cases (leb l.size p)) [
    | inl out ↦ rw out v
    | inr inside ↦ rw inside (record {
      allocated = length-set l.arrlist p none ∙ v.allocated;
      within = ground (arith, v.within);
      int_size = v.int_size;
      unused =
          λ i k. ground (arith, slot-set l.arrlist p i none, v.unused i, v.allocated, v.within);
    })
  ]

  pub list-remove : (l : OsrfList A) (p : ℕ) → (remove l p).list ≡ (extract l p).0
  unfolding remove
  list-remove l p = ground arith

  pub remove-IsValid : {l : OsrfList A} (p : ℕ) → IsValid l → IsValid (remove l p).list
  remove-IsValid {l} p v = rw list-remove (extract-IsValid p v)

  -- `store` at a position inside the array.
  store-IsValid :
      {l : OsrfList A} (x : Option A) (p : ℕ) → IsValid l → p < l.arrsize → IsValid (store l x p)
  unfolding store
  store-IsValid {l} x p v h = record {
    allocated = length-set l.arrlist p x ∙ v.allocated;
    within = ground (arith, v.within, v.int_size);
    int_size = v.int_size;
    unused = λ i k.
        ground (arith, slot-set l.arrlist p i x, v.unused i, v.allocated, v.within, v.int_size);
  }

  pub arrsize-remove : (l : OsrfList A) (p : ℕ) → (remove l p).list.arrsize ≡ l.arrsize
  unfolding remove
  arrsize-remove l p = ground arith

  -- `osrfListSet` at any position that an `int` leaves room for keeps a list valid: its array has the
  -- recorded length, its count is within it, and every slot at or above the count is NULL.
  pub set_item-IsValid :
      {l : OsrfList A} (x : Option A) (p : ℕ)
      → IsValid l
      → p ≤ max_position
      → IsValid (set_item l x p).list
  unfolding set_item
  set_item-IsValid {l} x p v h =
      let e = expand-Expanded p v h in
      store-IsValid x p (remove-IsValid p e.valid)
        (omega (arith, e.room, arrsize-remove (expand l p) p))

  pub push-IsValid :
      {l : OsrfList A} (x : Option A) → IsValid l → l.size ≤ max_position → IsValid (push l x).list
  unfolding push
  push-IsValid {l} x v h = set_item-IsValid x l.size v h

  pub first_free_bounds :
      (xs : List (Option A)) (n i : ℕ) → (i ≤ first_free xs n i) × (first_free xs n i ≤ i + n)
  unfolding first_free
  first_free_bounds xs zero i = omega arith
  first_free_bounds [] (suc n) i = omega arith
  first_free_bounds (none ∷ xs) (suc n) i = omega arith
  first_free_bounds (some x ∷ xs) (suc n) i = omega (arith, first_free_bounds xs n (i + 1))

  -- `osrfListPushFirst`, of a pointer or of NULL, keeps a list valid if its count is within the range of
  -- the positions.
  pub push_first-IsValid :
      {l : OsrfList A} (x : Option A)
      → IsValid l
      → l.size ≤ max_position
      → IsValid (push_first l x).1.list
  unfolding push_first
  push_first-IsValid none v h = v
  push_first-IsValid {l} (some x) v h =
      set_item-IsValid (some x) _ v (omega (arith, first_free_bounds l.arrlist l.size 0))

  pub pop-IsValid : {l : OsrfList A} → IsValid l → IsValid (pop l).list
  unfolding pop
  pop-IsValid {l} v = remove-IsValid _ v

  length-nullify : (n : ℕ) (xs : List (Option A)) → length (nullify n xs) ≡ length xs
  unfolding nullify
  length-nullify zero xs = refl
  length-nullify (suc n) [] = refl
  length-nullify (suc n) (x ∷ xs) = ap suc (length-nullify n xs)

  -- After `osrfListClear` a slot below `n` is empty, and the others are as before.
  pub get_or-nullify :
      (n : ℕ) (xs : List (Option A)) (i : ℕ)
      → get_or (nullify n xs) i none ≡ (if ltb i n then none else get_or xs i none)
  unfolding nullify
  get_or-nullify zero xs i = ground arith
  get_or-nullify (suc n) [] i = ground arith
  get_or-nullify (suc n) (x ∷ xs) zero = ground arith
  get_or-nullify (suc n) (x ∷ xs) (suc i) = ground (arith, get_or-nullify n xs i)

  pub clear-IsValid : {l : OsrfList A} → IsValid l → IsValid (clear l).0
  unfolding clear
  clear-IsValid {l} v = record {
    allocated = length-nullify l.size l.arrlist ∙ v.allocated;
    within = omega arith;
    int_size = v.int_size;
    unused = λ i _. ground (arith, get_or-nullify l.size l.arrlist i, v.unused i);
  }
