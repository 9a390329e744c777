-- ===== src/OsrfHash/Parked.antt =====
-- An iterator of src/libopensrf/osrf_hash.c whose node is removed.
use open_srf.Prelude.{
  ℕ, zero, suc, ◌≤◌, ◌<◌, ◌≡◌, refl, ap, ◌∙◌, true, false, Option, none, some, List, [], ◌∷◌, map,
  arith, if◌then◌else◌, length, Bytes,
}
use open_srf.OsrfHash.{Node, OsrfHash, node_at, find_item, item_of}
use open_srf.OsrfHash.Deletion.{unlink, hash_remove, remove_found}
use open_srf.OsrfHash.Entries.{entries, cons_entry}
use open_srf.OsrfHash.Erase.{chosen}
use open_srf.OsrfHash.Find.{find_item-Finds, Finds-unique}
use open_srf.OsrfHash.Links.{IsNext, IsPrev}
use open_srf.OsrfHash.Nodes.{is_at}
use open_srf.OsrfHash.Removal.{IsUnlinked, unlink-IsUnlinked}
use open_srf.OsrfHash.RemovalValid.{unlink-IsHash, own-unlink}
use open_srf.OsrfHash.Traversal.{iterator_next, iterator_has_next}
use open_srf.OsrfHash.Valid.{live, IsHash, live_lem}
use open_srf.OsrfHash.Walks.{drop, iterate, iterate-entries, IsParked}

module _ {A : Type 0} where
  -- `osrfHashRemove` of a key takes out the node that has it.
  hash-remove :
      {h : OsrfHash A} (i : ℕ) (key : Bytes)
      → IsHash h
      → (node_at h.nodes i).key ≡ some key
      → (hash_remove h key).hash ≡ unlink h i
  unfolding hash_remove remove_found
  hash-remove {h} i key v e =
      let f : find_item h key false ≡ some i =
        Finds-unique key (find_item h key false) (some i) v.keyed (find_item-Finds key false v) e in
      ap (λ o. (remove_found h o).hash) f ∙ (chosen h.free_item (unlink h i) _ _).0

  not_self : (ns : List (Node A)) (i : ℕ) (o : Option ℕ) → IsPrev (live ns) i o → is_at o i ≡ false
  not_self ns i none p = refl
  not_self ns i (some j) p = ground (arith, p.1)

  -- the pointer of a node forward is left in place when the node is taken out
  next-unlink :
      {h h' : OsrfHash A} (i : ℕ) {key : Bytes}
      → IsHash h
      → (node_at h.nodes i).key ≡ some key
      → IsUnlinked h i h'
      → (node_at h'.nodes i).next ≡ (node_at h.nodes i).next
  next-unlink {h} i v e u =
      u.next i ∙ ground (arith, not_self h.nodes i _ (v.linked.prevs i (live_lem h.nodes i e)))

  pub entries-drop :
      (ns ms : List (Node A)) (k : ℕ)
      → length ns ≡ length ms
      → ((j : ℕ) → k ≤ j → (node_at ns j).key ≡ (node_at ms j).key)
      → ((j : ℕ) → k ≤ j → (node_at ns j).item ≡ (node_at ms j).item)
      → entries (drop k ns) ≡ entries (drop k ms)
  unfolding entries drop node_at
  entries-drop [] [] k l e e' = refl
  entries-drop [] (m ∷ ms) k l e e' = absurd (omega arith)
  entries-drop (n ∷ ns) [] k l e e' = absurd (omega arith)
  entries-drop (n ∷ ns) (m ∷ ms) (suc k) l e e' =
      entries-drop ns ms k (omega arith) (λ j b. e (suc j) (omega arith))
        (λ j b. e' (suc j) (omega arith))
  entries-drop (n ∷ ns) (m ∷ ms) zero l e e' =
      let rest =
        entries-drop ns ms 0 (omega arith) (λ j b. e (suc j) (omega arith))
          (λ j b. e' (suc j) (omega arith)) in
      rw (e 0 (omega arith), e' 0 (omega arith)) (ap (cons_entry m.key m.item) rest)

  -- When an iterator is positioned on an entry of a valid hash and `osrfHashRemove` takes that entry
  -- out, further calls of `osrfHashIteratorNext` give the items of all the entries behind it, in
  -- order, and then NULL.
  pub iterate-hash_remove :
      {h : OsrfHash A} (i : ℕ) (key : Bytes) (n : ℕ)
      → IsHash h
      → (node_at h.nodes i).key ≡ some key
      → length h.nodes < n
      → iterate (hash_remove h key).hash n (some i)
        ≡ map (λ e. e.1) (entries (drop (suc i) h.nodes))
  iterate-hash_remove {h} i key n v e b =
      let u = unlink-IsUnlinked v e in
      let w = unlink-IsHash v e u in
      let parked : IsParked (unlink h i) (some i) =
        unfold IsParked in rw (next-unlink i v e u) (own-unlink v e u) in
      ap (λ z. iterate z n (some i)) (hash-remove i key v e)
      ∙ iterate-entries n (some i) w parked (omega (arith, u.same_length))
      ∙ ap (map (λ e. e.1)) (
          entries-drop (unlink h i).nodes h.nodes (suc i) u.same_length
            (λ j m. u.key j ∙ ground arith) (λ j m. u.item j ∙ ground arith))

  -- When an iterator is positioned on an entry of a valid hash and `osrfHashRemove` takes out that
  -- entry and then the one that comes next, `osrfHashIteratorHasNext` says yes and
  -- `osrfHashIteratorNext` gives NULL, whatever entries are left.
  pub iterator_next-removed_next :
      {h : OsrfHash A} (i j : ℕ) (key next : Bytes)
      → IsHash h
      → (node_at h.nodes i).key ≡ some key
      → (node_at h.nodes i).next ≡ some j
      → (node_at h.nodes j).key ≡ some next
      → let h' = (hash_remove (hash_remove h key).hash next).hash in
        (iterator_has_next h' (some i) ≡ true) × (iterator_next h' (some i) ≡ (none, some j))
  unfolding iterator_has_next iterator_next item_of
  iterator_next-removed_next {h} i j key next v e p e' =
      let u = unlink-IsUnlinked v e in
      let w = unlink-IsHash v e u in
      let lt : i < j = after _ p (v.linked.nexts i (live_lem h.nodes i e)) in
      let k : (node_at (unlink h i).nodes j).key ≡ some next = u.key j ∙ ground arith in
      let u' = unlink-IsUnlinked w k in
      let at : (hash_remove (hash_remove h key).hash next).hash ≡ unlink (unlink h i) j =
        ap (λ z. (hash_remove z next).hash) (hash-remove i key v e) ∙ hash-remove j next w k in
      let n : (node_at (unlink (unlink h i) j).nodes i).next ≡ some j =
        u'.next i
        ∙ stays _ _ _ (u.prev j ∙ back p)
            (not_self h.nodes i _ (v.linked.prevs i (live_lem h.nodes i e)))
        ∙ next-unlink i v e u
        ∙ p in
      let x : (node_at (unlink (unlink h i) j).nodes j).item ≡ none = u'.item j ∙ ground arith in
      rw (at, n, x) (refl, refl)
    where
      after : (o : Option ℕ) → o ≡ some j → IsNext (live h.nodes) (suc i) o → i < j
      after none q b = absurd (cc)
      after (some l) q b = let y : l ≡ j = cc in omega (arith, b.1)

      stays :
          (o o' : Option ℕ) (x : Option ℕ) {y : Option ℕ}
          → o ≡ o'
          → is_at o' i ≡ false
          → (if is_at o i then x else y) ≡ y
      stays o o' x q d = rw (q, d) refl

      back :
          (node_at h.nodes i).next ≡ some j
          → (if is_at (node_at h.nodes i).next j
              then (node_at h.nodes i).prev
              else (node_at h.nodes j).prev)
            ≡ (node_at h.nodes i).prev
      back q = rw q (ground arith)
