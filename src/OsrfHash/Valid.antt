-- ===== src/OsrfHash/Valid.antt =====
-- The representation invariant of src/libopensrf/osrf_hash.c.
use open_srf.Prelude.{
  ℕ, zero, suc, ◌+◌, ◌≤◌, ◌<◌, ◌≡◌, ◌≢◌, refl, inl, inr, true, false, Bool, Option, none, some,
  List, [], ◌∷◌, arith, ltb, Bool-cases, is_some, length, Bytes,
}
use open_srf.OsrfList.{OsrfList, get_index}
use open_srf.OsrfList.Valid
use open_srf.OsrfHash.{Node, OsrfHash, make_key, node_at}
use open_srf.OsrfHash.Links.{IsNext, IsPrev}
use open_srf.OsrfHash.Entries.{entries}

module _ {A : Type 0} where
  -- the nodes that are not deleted
  abbrev pub live : List (Node A) → ℕ → Bool
  live ns j = is_some (node_at ns j).key

  -- The linked list goes through the nodes that are not deleted, in the order of the store.
  pub record IsLinked (ns : List (Node A)) (first last : Option ℕ) : Type 0 where
    pub from : IsNext (live ns) 0 first
    pub to : IsPrev (live ns) (length ns) last
    pub nexts : (j : ℕ) → live ns j ≡ true → IsNext (live ns) (suc j) (node_at ns j).next
    pub prevs : (j : ℕ) → live ns j ≡ true → IsPrev (live ns) j (node_at ns j).prev

  -- A node with a key has an item, one without a key has none, and no two nodes have the same key.
  pub record IsKeyed (ns : List (Node A)) : Type 0 where
    pub filled :
        (i : ℕ) (k : Bytes) → (node_at ns i).key ≡ some k → (x : A) × ((node_at ns i).item ≡ some x)
    pub cleared : (i : ℕ) → (node_at ns i).key ≡ none → (node_at ns i).item ≡ none
    pub distinct :
        (i j : ℕ) (k : Bytes) → (node_at ns i).key ≡ some k → (node_at ns j).key ≡ some k → i ≡ j

  -- Each bucket is a valid list with no more slots than there are nodes, and a node with a key is in
  -- the bucket of that key.
  pub record IsBucketed (ns : List (Node A)) (t : OsrfList (OsrfList ℕ)) : Type 0 where
    pub valid : Valid.IsValid t
    pub buckets :
        (b : ℕ) (l : OsrfList ℕ) → get_index t b ≡ some l → Valid.IsValid l × (l.size ≤ length ns)
    pub homed :
        (i : ℕ) (k : Bytes)
        → (node_at ns i).key ≡ some k
        → (l : OsrfList ℕ) × (p : ℕ) × (get_index t (make_key k) ≡ some l)
          × (get_index l p ≡ some i)

  pub record IsHash (h : OsrfHash A) : Type 0 where
    pub linked : IsLinked h.nodes h.first_key h.last_key
    pub keyed : IsKeyed h.nodes
    pub bucketed : IsBucketed h.nodes h.hash
    pub counted : h.size ≡ length (entries h.nodes)
    pub small : length h.nodes ≤ Valid.max_position + 1

  -- The node with this key, or `none` where no node has it.
  abbrev pub Finds : List (Node A) → Bytes → Option ℕ → Type 0
  Finds ns key none = (i : ℕ) → (node_at ns i).key ≢ some key
  Finds ns key (some i) = (node_at ns i).key ≡ some key

  pub node_at-beyond : (ns : List (Node A)) (i : ℕ) → length ns ≤ i → (node_at ns i).key ≡ none
  unfolding node_at
  node_at-beyond [] i h = refl
  node_at-beyond (n ∷ ns) zero h = absurd (omega arith)
  node_at-beyond (n ∷ ns) (suc i) h = node_at-beyond ns i (omega arith)

  pub live-beyond : (ns : List (Node A)) (j : ℕ) → length ns ≤ j → live ns j ≡ false
  live-beyond ns j h = rw (node_at-beyond ns j h)

  pub live_lem :
      (ns : List (Node A)) (i : ℕ) {k : Bytes} → (node_at ns i).key ≡ some k → live ns i ≡ true
  live_lem ns i e = rw e

  pub live_lt : (ns : List (Node A)) (i : ℕ) → live ns i ≡ true → i < length ns
  live_lt ns i e = elim (Bool-cases (ltb i (length ns))) [
    | inl l ↦ ground arith
    | inr l ↦ absurd (ground (arith, live-beyond ns i))
  ]
