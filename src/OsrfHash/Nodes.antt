-- ===== src/OsrfHash/Nodes.antt =====
-- What the writes of src/libopensrf/osrf_hash.c to one field of a node leave in the store.
use open_srf.Prelude.{
  ℕ, zero, suc, ◌<◌, ◌≡◌, refl, ◌∙◌, Bool, false, Option, none, some, List, [], ◌∷◌, arith, ◌==◌,
  if◌then◌else◌, length, set, length-set,
}
use open_srf.OsrfHash.{Node, OsrfHash, node_at, set_next, set_prev}
use open_srf.OsrfHash.Deletion.{mark_deleted, bypass_prev, bypass_next}
use open_srf.OsrfHash.Entries.{entries, entries-set}

-- whether a pointer points to node `j`
abbrev pub is_at : Option ℕ → ℕ → Bool
is_at none j = false
is_at (some i) j = i == j

module _ {A : Type 0} where
  -- a field that a write to the node leaves as it was
  pub field-set_same :
      {B : Type 0} (f : Node A → B) (ns : List (Node A)) (i j : ℕ) (n : Node A)
      → f n ≡ f (node_at ns i)
      → f (node_at (set ns i n) j) ≡ f (node_at ns j)
  unfolding node_at
  field-set_same f [] i j n e = refl
  field-set_same f (m ∷ ns) zero zero n e = e
  field-set_same f (m ∷ ns) zero (suc j) n e = refl
  field-set_same f (m ∷ ns) (suc i) zero n e = refl
  field-set_same f (m ∷ ns) (suc i) (suc j) n e = field-set_same f ns i j n e

  pub field-set :
      {B : Type 0} (f : Node A → B) (ns : List (Node A)) (i j : ℕ) (n : Node A)
      → i < length ns
      → f (node_at (set ns i n) j) ≡ (if i == j then f n else f (node_at ns j))
  unfolding node_at
  field-set f [] i j n h = absurd (omega arith)
  field-set f (m ∷ ns) zero zero n h = refl
  field-set f (m ∷ ns) zero (suc j) n h = ground arith
  field-set f (m ∷ ns) (suc i) zero n h = ground arith
  field-set f (m ∷ ns) (suc i) (suc j) n h = field-set f ns i j n (omega arith) ∙ ground arith

  -- The two tests of `osrfHashRemove` write only what is named.
  pub record IsBypassed (h h' : OsrfHash A) : Type 0 where
    pub same_hash : h'.hash ≡ h.hash
    pub same_callback : h'.free_item ≡ h.free_item
    pub same_size : h'.size ≡ h.size
    pub same_length : length h'.nodes ≡ length h.nodes
    pub same_key : (j : ℕ) → (node_at h'.nodes j).key ≡ (node_at h.nodes j).key
    pub same_item : (j : ℕ) → (node_at h'.nodes j).item ≡ (node_at h.nodes j).item
    pub same_entries : entries h'.nodes ≡ entries h.nodes

  pub bypass_prev-IsBypassed : (h : OsrfHash A) (p o : Option ℕ) → IsBypassed h (bypass_prev h p o)
  unfolding bypass_prev set_next
  bypass_prev-IsBypassed h none o = record {
    same_hash = refl;
    same_callback = refl;
    same_size = refl;
    same_length = refl;
    same_key = λ j. refl;
    same_item = λ j. refl;
    same_entries = refl;
  }
  bypass_prev-IsBypassed h (some p) o = record {
    same_hash = refl;
    same_callback = refl;
    same_size = refl;
    same_length = length-set h.nodes p _;
    same_key = λ j. field-set_same (λ n. n.key) h.nodes p j _ refl;
    same_item = λ j. field-set_same (λ n. n.item) h.nodes p j _ refl;
    same_entries = entries-set h.nodes p _ refl refl;
  }

  pub bypass_next-IsBypassed : (h : OsrfHash A) (n o : Option ℕ) → IsBypassed h (bypass_next h n o)
  unfolding bypass_next set_prev
  bypass_next-IsBypassed h none o = record {
    same_hash = refl;
    same_callback = refl;
    same_size = refl;
    same_length = refl;
    same_key = λ j. refl;
    same_item = λ j. refl;
    same_entries = refl;
  }
  bypass_next-IsBypassed h (some n) o = record {
    same_hash = refl;
    same_callback = refl;
    same_size = refl;
    same_length = length-set h.nodes n _;
    same_key = λ j. field-set_same (λ n. n.key) h.nodes n j _ refl;
    same_item = λ j. field-set_same (λ n. n.item) h.nodes n j _ refl;
    same_entries = entries-set h.nodes n _ refl refl;
  }

  -- what the first of them does to the links forward, the second to the links backward
  pub bypass_prev_lem :
      (h : OsrfHash A) (p o : Option ℕ)
      → ((i : ℕ) → p ≡ some i → i < length h.nodes)
      → let h' = bypass_prev h p o in
        (h'.first_key ≡ elim p [ none ↦ o | some i ↦ h.first_key ])
        × (h'.last_key ≡ h.last_key)
        × ((j : ℕ)
            → (node_at h'.nodes j).next ≡ (if is_at p j then o else (node_at h.nodes j).next))
        × ((j : ℕ) → (node_at h'.nodes j).prev ≡ (node_at h.nodes j).prev)
  unfolding bypass_prev set_next
  bypass_prev_lem h none o b = (refl, refl, λ j. refl, λ j. refl)
  bypass_prev_lem h (some i) o b = (
    refl,
    refl,
    λ j. field-set (λ n. n.next) h.nodes i j _ (b i refl),
    λ j. field-set_same (λ n. n.prev) h.nodes i j _ refl,
  )

  pub bypass_next_lem :
      (h : OsrfHash A) (p o : Option ℕ)
      → ((i : ℕ) → p ≡ some i → i < length h.nodes)
      → let h' = bypass_next h p o in
        (h'.last_key ≡ elim p [ none ↦ o | some i ↦ h.last_key ])
        × (h'.first_key ≡ h.first_key)
        × ((j : ℕ)
            → (node_at h'.nodes j).prev ≡ (if is_at p j then o else (node_at h.nodes j).prev))
        × ((j : ℕ) → (node_at h'.nodes j).next ≡ (node_at h.nodes j).next)
  unfolding bypass_next set_prev
  bypass_next_lem h none o b = (refl, refl, λ j. refl, λ j. refl)
  bypass_next_lem h (some i) o b = (
    refl,
    refl,
    λ j. field-set (λ n. n.prev) h.nodes i j _ (b i refl),
    λ j. field-set_same (λ n. n.next) h.nodes i j _ refl,
  )

  pub mark_deleted_lem :
      (ns : List (Node A)) (i : ℕ)
      → i < length ns
      → let ns' = mark_deleted ns i in
        (length ns' ≡ length ns)
        × ((j : ℕ) → (node_at ns' j).key ≡ (if i == j then none else (node_at ns j).key))
        × ((j : ℕ) → (node_at ns' j).item ≡ (if i == j then none else (node_at ns j).item))
        × ((j : ℕ) → (node_at ns' j).next ≡ (node_at ns j).next)
        × ((j : ℕ) → (node_at ns' j).prev ≡ (node_at ns j).prev)
  unfolding mark_deleted
  mark_deleted_lem ns i h = (
    length-set ns i _,
    λ j. field-set (λ n. n.key) ns i j _ h,
    λ j. field-set (λ n. n.item) ns i j _ h,
    λ j. field-set_same (λ n. n.next) ns i j _ refl,
    λ j. field-set_same (λ n. n.prev) ns i j _ refl,
  )
