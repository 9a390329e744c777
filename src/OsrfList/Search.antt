-- ===== src/OsrfList/Search.antt =====
-- The searches of src/libopensrf/osrf_list.c, and lists that are filled by pushes alone.
use mathlib.Core.Path.{fun_ext}
use mathlib.Core.Option
use open_srf.Prelude.{
  ℕ, zero, suc, ◌+◌, ◌^◌, ◌≤◌, ◌<◌, ◌≡◌, refl, sym, ◌∙◌, ◌≢◌, inl, inr, true, false, Bool, Option,
  none, some, List, [], ◌∷◌, ◌++◌, arith, ◌==◌, if◌then◌else◌, Bool-cases, length, get_or,
  get_elem?, get_elem?-concat, length-append,
}
use open_srf.OsrfList.{
  OsrfList, get_index, push, first_free, push_first, find_from, find, new_list_size,
}
use open_srf.OsrfList.Valid.{
  max_position, IsValid, first_free_bounds, set_item-IsValid, new_list_size-IsValid,
}
use open_srf.OsrfList.Access.{get_index-slot, get_index-set_item, size-set_item}

-- The least index that passes a test, or `none` where none passes.
abbrev pub IsLeast : (ℕ → Bool) → Option ℕ → Type 0
IsLeast test none = (j : ℕ) → test j ≡ false
IsLeast test (some k) = (test k ≡ true) × ((j : ℕ) → j < k → test j ≡ false)

-- whether a slot holds a pointer that compares equal to `addr`
abbrev pub holds : {A : Type 0} → (A → A → Bool) → A → Option A → Bool
holds same addr none = false
holds same addr (some x) = same x addr

-- one step of a search upwards
IsLeast-suc :
    (test : ℕ → Bool) (o : Option ℕ)
    → test 0 ≡ false
    → IsLeast (λ j. test (suc j)) o
    → IsLeast test (Option.map suc o)
IsLeast-suc test none h l = λ j. from_zero j
  where
    from_zero : (j : ℕ) → test j ≡ false
    from_zero zero = h
    from_zero (suc j) = l j
IsLeast-suc test (some k) h l = (l.0, λ j. from_zero j)
  where
    from_zero : (j : ℕ) → j < suc k → test j ≡ false
    from_zero zero m = h
    from_zero (suc j) m = l.1 j (omega arith)

module _ {A : Type 0} where
  first_free-shift : (xs : List (Option A)) (n i : ℕ) → first_free xs n i ≡ first_free xs n 0 + i
  unfolding first_free
  first_free-shift xs zero i = omega arith
  first_free-shift [] (suc n) i = omega arith
  first_free-shift (none ∷ xs) (suc n) i = omega arith
  first_free-shift (some x ∷ xs) (suc n) i =
      omega (arith, first_free-shift xs n (i + 1), first_free-shift xs n 1)

  first_free_lem :
      (xs : List (Option A)) (n : ℕ)
      → get_or xs n none ≡ none
      → (get_or xs (first_free xs n 0) none ≡ none)
        × ((j : ℕ) → j < first_free xs n 0 → get_or xs j none ≢ none)
  unfolding first_free
  first_free_lem xs zero h = (h, λ j k. absurd (omega arith))
  first_free_lem [] (suc n) h = (refl, λ j k. absurd (omega arith))
  first_free_lem (none ∷ xs) (suc n) h = (refl, λ j k. absurd (omega arith))
  first_free_lem (some x ∷ xs) (suc n) h =
      let e : first_free xs n 1 ≡ suc (first_free xs n 0) = first_free-shift xs n 1 ∙ omega arith in
      let (free, below) = first_free_lem xs n h in rw e (free, from_zero below)
    where
      from_zero :
          ((j : ℕ) → j < first_free xs n 0 → get_or xs j none ≢ none)
          → (j : ℕ) → j < suc (first_free xs n 0)
          → get_or (some x ∷ xs) j none ≢ none
      from_zero below zero m = λ e. cc
      from_zero below (suc j) m = below j (omega arith)

  find_from-shift :
      (same : A → A → Bool) (addr : A) (xs : List (Option A)) (n i : ℕ)
      → find_from same addr xs n (i + 1) ≡ Option.map suc (find_from same addr xs n i)
  unfolding find_from
  find_from-shift same addr xs zero i = refl
  find_from-shift same addr [] (suc n) i = refl
  find_from-shift same addr (none ∷ xs) (suc n) i = find_from-shift same addr xs n (i + 1)
  find_from-shift same addr (some x ∷ xs) (suc n) i =
      ground (arith, find_from-shift same addr xs n (i + 1))

  find_from_lem :
      (same : A → A → Bool) (addr : A) (xs : List (Option A)) (n : ℕ)
      → ((j : ℕ) → n ≤ j → get_or xs j none ≡ none)
      → IsLeast (λ j. holds same addr (get_or xs j none)) (find_from same addr xs n 0)
  unfolding find_from
  find_from_lem same addr xs zero h = λ j. rw (h j (omega arith))
  find_from_lem same addr [] (suc n) h = λ j. refl
  find_from_lem same addr (none ∷ xs) (suc n) h =
      rw (find_from-shift same addr xs n 0)
        (IsLeast-suc _ _ refl (find_from_lem same addr xs n (λ j k. h (suc j) (omega arith))))
  find_from_lem same addr (some x ∷ xs) (suc n) h = elim (Bool-cases (same x addr)) [
    | inl e ↦ rw e (e, λ j k. absurd (omega arith))
    | inr e ↦
        rw (e, find_from-shift same addr xs n 0)
          (IsLeast-suc _ _ e (find_from_lem same addr xs n (λ j k. h (suc j) (omega arith))))
  ]

  -- `osrfListFind` on a valid list gives the lowest position whose pointer compares equal to the one
  -- sought, and -1 exactly where no position has one.
  pub find-IsLeast :
      (same : A → A → Bool) {l : OsrfList A} (addr : A)
      → IsValid l
      → IsLeast (λ j. holds same addr (get_index l j)) (find same l addr)
  unfolding find
  find-IsLeast same {l} addr v =
      rw (fun_ext (λ j. get_index-slot j v)) (find_from_lem same addr l.arrlist l.size v.unused)

  -- `osrfListPushFirst` of a pointer that is not NULL, on a valid list whose count is within the range
  -- of the positions: some position is the lowest
  -- empty one, it is not above the count, it reads as the pointer afterwards, and every other
  -- position reads as before. The returned number is the count of the new list.
  pub push_first_lem :
      {l : OsrfList A} (x : A)
      → IsValid l
      → l.size ≤ max_position
      → let (n, r) = push_first l (some x) in
        (k : ℕ) × (k ≤ l.size)
        × (get_index l k ≡ none)
        × ((j : ℕ) → j < k → get_index l j ≢ none)
        × ((i : ℕ) → get_index r.list i ≡ (if k == i then some x else get_index l i))
        × (n ≡ some r.list.size)
  unfolding push_first
  push_first_lem {l} x v h =
      let k = first_free l.arrlist l.size 0 in
      let (free, below) = first_free_lem l.arrlist l.size (v.unused l.size (omega arith)) in
      let b = first_free_bounds l.arrlist l.size 0 in
      (
        k,
        omega arith,
        get_index-slot k v ∙ free,
        λ j m e. below j m (sym (get_index-slot j v) ∙ e),
        λ i. get_index-set_item (some x) k i v (omega (arith, b)),
        refl,
      )

-- The list holds exactly these pointers, from position 0 on with no gap.
pub record IsPacked {A : Type 0} (l : OsrfList A) (xs : List A) : Type 0 where
  pub valid : IsValid l
  pub counted : l.size ≡ length xs
  pub slots : (i : ℕ) → get_index l i ≡ get_elem? xs i

module _ {A : Type 0} where
  pub new_list_size-IsPacked : (n : ℕ) → n < 2 ^ 31 → IsPacked {A = A} (new_list_size n) []
  unfolding new_list_size get_index
  new_list_size-IsPacked n h = record {
    valid = new_list_size-IsValid n h;
    counted = refl;
    slots = λ i. ground arith;
  }

  -- `osrfListPush` on a list that holds `xs` with no gap gives one that holds `xs` and then the
  -- new pointer, as long as the array index stays within an `int`.
  pub push-IsPacked :
      {l : OsrfList A} {xs : List A} (x : A)
      → IsPacked l xs
      → l.size ≤ max_position
      → IsPacked (push l (some x)).list (xs ++ x ∷ [])
  unfolding push
  push-IsPacked {l} {xs} x p h = record {
    valid = set_item-IsValid (some x) l.size p.valid h;
    counted =
        size-set_item (some x) l.size p.valid h
        ∙ ground (arith, length-append xs (x ∷ []), p.counted);
    slots = λ i.
        get_index-set_item (some x) l.size i p.valid h
        ∙ ground (arith, get_elem?-concat xs x i, p.slots i, p.counted);
  }

  -- Installing or taking away the callback changes nothing that is stored.
  pub callback-IsValid :
      {l : OsrfList A} (b : Bool) → IsValid l → IsValid (record l { free_item = b })
  callback-IsValid b v = record {
    allocated = v.allocated;
    within = v.within;
    int_size = v.int_size;
    unused = v.unused;
  }

  pub get_index-callback :
      (l : OsrfList A) (b : Bool) (i : ℕ) → get_index (record l { free_item = b }) i ≡ get_index l i
  unfolding get_index
  get_index-callback l b i = refl

  pub callback-IsPacked :
      {l : OsrfList A} {xs : List A} (b : Bool)
      → IsPacked l xs
      → IsPacked (record l { free_item = b }) xs
  callback-IsPacked {l} b p = record {
    valid = callback-IsValid b p.valid;
    counted = p.counted;
    slots = λ i. get_index-callback l b i ∙ p.slots i;
  }
