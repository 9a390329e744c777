-- ===== src/OsrfHash/Removal.antt =====
-- `osrfHashRemove` and `osrfHashExtract` of src/libopensrf/osrf_hash.c.
use open_srf.Prelude.{
  ℕ, suc, ◌+◌, ◌-◌, ◌%◌, ◌<◌, ◌≡◌, ap, ◌∙◌, Option, none, some, List, arith, ◌==◌, if◌then◌else◌,
  length, Bytes,
}
use open_srf.OsrfList.{uint_mod}
use open_srf.OsrfHash.{Node, OsrfHash, node_at}
use open_srf.OsrfHash.Deletion.{mark_deleted, bypass_prev, unlink}
use open_srf.OsrfHash.Entries.{entries}
use open_srf.OsrfHash.Links.{IsNext, IsPrev}
use open_srf.OsrfHash.Nodes.{
  is_at, bypass_prev-IsBypassed, bypass_next-IsBypassed, bypass_prev_lem, bypass_next_lem,
  mark_deleted_lem,
}
use open_srf.OsrfHash.Valid.{live, IsHash, live_lem, live_lt}

module _ {A : Type 0} where
  -- What `unlink` leaves of a hash `h` without its node `i`.
  pub record IsUnlinked (h : OsrfHash A) (i : ℕ) (h' : OsrfHash A) : Type 0 where
    pub same_hash : h'.hash ≡ h.hash
    pub same_callback : h'.free_item ≡ h.free_item
    pub same_length : length h'.nodes ≡ length h.nodes
    pub size : h'.size ≡ (h.size + uint_mod - 1) % uint_mod
    pub key :
        (j : ℕ) → (node_at h'.nodes j).key ≡ (if i == j then none else (node_at h.nodes j).key)
    pub item :
        (j : ℕ) → (node_at h'.nodes j).item ≡ (if i == j then none else (node_at h.nodes j).item)
    pub next :
        (j : ℕ)
        → (node_at h'.nodes j).next ≡ (
            if is_at (node_at h.nodes i).prev j
            then (node_at h.nodes i).next
            else (node_at h.nodes j).next)
    pub prev :
        (j : ℕ)
        → (node_at h'.nodes j).prev ≡ (
            if is_at (node_at h.nodes i).next j
            then (node_at h.nodes i).prev
            else (node_at h.nodes j).prev)
    pub first :
        h'.first_key
        ≡ elim (node_at h.nodes i).prev [ none ↦ (node_at h.nodes i).next | some p ↦ h.first_key ]
    pub last :
        h'.last_key
        ≡ elim (node_at h.nodes i).next [ none ↦ (node_at h.nodes i).prev | some p ↦ h.last_key ]
    pub entries : entries h'.nodes ≡ entries (mark_deleted h.nodes i)

  prev_lt :
      (ns : List (Node A)) (j k i : ℕ) (o : Option ℕ)
      → j < k
      → IsPrev (live ns) j o
      → o ≡ some i
      → i < k
  prev_lt ns j k i none l p e = absurd (cc)
  prev_lt ns j k i (some i') l p e = let d : i' ≡ i = cc in omega (arith, p.1)

  next_lt :
      (ns : List (Node A)) (j i : ℕ) (o : Option ℕ)
      → IsNext (live ns) j o
      → o ≡ some i
      → i < length ns
  next_lt ns j i none p e = absurd (cc)
  next_lt ns j i (some i') p e = let d : i' ≡ i = cc in let b = live_lt ns i' p.0 in omega arith

  pub unlink-IsUnlinked :
      {h : OsrfHash A} {i : ℕ} {key : Bytes}
      → IsHash h
      → (node_at h.nodes i).key ≡ some key
      → IsUnlinked h i (unlink h i)
  unfolding unlink
  unlink-IsUnlinked {h} {i} {key} v e =
      let alive = live_lem h.nodes i e in
      let p = (node_at h.nodes i).prev in
      let n = (node_at h.nodes i).next in
      let i_lt = live_lt h.nodes i alive in
      let m = mark_deleted_lem h.nodes i i_lt in
      let h0 = record h {
        size = (h.size + uint_mod - 1) % uint_mod;
        nodes = mark_deleted h.nodes i;
      } in
      let p_lt : (j : ℕ) → p ≡ some j → j < length h0.nodes = λ j e'.
        omega
          (arith, prev_lt h.nodes i (length h.nodes) j p i_lt (v.linked.prevs i alive) e', m.0) in
      let b = bypass_prev-IsBypassed h0 p n in
      let f = bypass_prev_lem h0 p n p_lt in
      let h1 = bypass_prev h0 p n in
      let n_lt : (j : ℕ) → n ≡ some j → j < length h1.nodes = λ j e'.
        omega
          (arith, next_lt h.nodes (suc i) j n (v.linked.nexts i alive) e', m.0, b.same_length) in
      let b' = bypass_next-IsBypassed h1 n p in
      let f' = bypass_next_lem h1 n p n_lt in
      record {
        same_hash = b'.same_hash ∙ b.same_hash;
        same_callback = b'.same_callback ∙ b.same_callback;
        same_length = b'.same_length ∙ b.same_length ∙ m.0;
        size = b'.same_size ∙ b.same_size;
        key = λ j. b'.same_key j ∙ b.same_key j ∙ m.1 j;
        item = λ j. b'.same_item j ∙ b.same_item j ∙ m.2 j;
        next = λ j. f'.3 j ∙ f.2 j ∙ ap (λ z. if is_at p j then n else z) (m.3 j);
        prev = λ j. f'.2 j ∙ ap (λ z. if is_at n j then p else z) (f.3 j ∙ m.4 j);
        first = f'.1 ∙ f.0;
        last = f'.0 ∙ ap (λ z. elim n [ none ↦ p | some l ↦ z ]) f.1;
        entries = b'.same_entries ∙ b.same_entries;
      }
