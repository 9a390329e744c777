-- ===== src/OsrfHash/Walks.antt =====
-- Traversals of the linked list in src/libopensrf/osrf_hash.c: `osrfHashKeys` and the iterator.
use open_srf.Prelude.{
  ℕ, zero, suc, ◌+◌, ◌≤◌, ◌<◌, ◌≡◌, refl, ap, subst, ◌∙◌, true, false, Option, none, some, List, [],
  ◌∷◌, ◌++◌, map, append-nil, append_assoc, arith, length, length-append, Bytes, is_some,
}
use open_srf.OsrfList.Valid.{max_position}
use open_srf.StringArray.{StringArray}
use open_srf.StringArray.Strings.{IsStrings, new_string_array-IsStrings, add-IsStrings}
use open_srf.OsrfHash.{Node, OsrfHash, node_at, item_of}
use open_srf.OsrfHash.Entries.{entries, cons_entry, length-entries}
use open_srf.OsrfHash.Links.{IsNext, behind}
use open_srf.OsrfHash.Traversal.{add_key, collect_keys, hash_keys, iterator_next}
use open_srf.OsrfHash.Valid.{live, IsKeyed, IsHash, live_lt}

module _ {A : Type 0} where
  -- the nodes from position `k` on
  unfoldable pub drop : ℕ → List (Node A) → List (Node A)
  drop zero ns = ns
  drop (suc k) [] = []
  drop (suc k) (n ∷ ns) = drop k ns

  -- the entries from the node on that a pointer points to
  abbrev pub entries_at : List (Node A) → Option ℕ → List (Bytes × A)
  entries_at ns none = []
  entries_at ns (some i) =
      cons_entry (node_at ns i).key (node_at ns i).item (entries (drop (suc i) ns))

  IsNext-pred :
      (n : Node A) (ns : List (Node A)) (k : ℕ)
      → IsNext (live (n ∷ ns)) (suc k) none
      → IsNext (live ns) k none
  unfolding node_at
  IsNext-pred n ns k h = λ j m. h (suc j) (omega arith)

  IsNext-pred_some :
      (n : Node A) (ns : List (Node A)) (k i : ℕ)
      → IsNext (live (n ∷ ns)) (suc k) (some (suc i))
      → IsNext (live ns) k (some i)
  unfolding node_at
  IsNext-pred_some n ns k i h =
      (h.0, omega (arith, h.1), λ j m m'. h.2 (suc j) (omega arith) (omega arith))

  cons_entry_dead :
      (k : Option Bytes) (x : Option A) (es : List (Bytes × A))
      → is_some k ≡ false
      → cons_entry k x es ≡ es
  cons_entry_dead none x es h = refl
  cons_entry_dead (some k) x es h = absurd (ground arith)

  -- where the next node is, the entries go on
  pub entries-next :
      (ns : List (Node A)) (k : ℕ) (o : Option ℕ)
      → IsNext (live ns) k o
      → entries (drop k ns) ≡ entries_at ns o
  unfolding entries drop node_at
  entries-next [] zero none h = refl
  entries-next [] (suc k) none h = refl
  entries-next [] k (some i) h = absurd (let z = h.0 in ground arith)
  entries-next (n ∷ ns) (suc k) none h = entries-next ns k none (IsNext-pred n ns k h)
  entries-next (n ∷ ns) (suc k) (some zero) h = absurd (omega (arith, h.1))
  entries-next (n ∷ ns) (suc k) (some (suc i)) h =
      entries-next ns k (some i) (IsNext-pred_some n ns k i h)
  entries-next (n ∷ ns) zero none h =
      cons_entry_dead n.key n.item (entries ns) (h 0 (omega arith))
      ∙ entries-next ns 0 none (λ j m. h (suc j) (omega arith))
  entries-next (n ∷ ns) zero (some zero) h = refl
  entries-next (n ∷ ns) zero (some (suc i)) h =
      cons_entry_dead n.key n.item (entries ns) (h.2 0 (omega arith) (omega arith))
      ∙ entries-next ns 0 (some i)
          (h.0, omega arith, λ j m m'. h.2 (suc j) (omega arith) (omega arith))

  pub entries_at_live :
      (ns : List (Node A)) (i : ℕ) {key : Bytes} {x : A}
      → (node_at ns i).key ≡ some key
      → (node_at ns i).item ≡ some x
      → entries_at ns (some i) ≡ (key, x) ∷ entries (drop (suc i) ns)
  entries_at_live ns i e e' = rw (e, e')

  -- the node that a followed pointer points to
  pub next_node :
      {ns : List (Node A)} (i : ℕ)
      → IsKeyed ns
      → live ns i ≡ true
      → (k : Bytes) × (x : A) × ((node_at ns i).key ≡ some k) × ((node_at ns i).item ≡ some x)
  next_node {ns} i v a = go _ refl
    where
      go :
          (o : Option Bytes)
          → (node_at ns i).key ≡ o
          → (k : Bytes) × (x : A) × ((node_at ns i).key ≡ some k) × ((node_at ns i).item ≡ some x)
      go none e = absurd (let z = a in ground arith)
      go (some k) e = let (x, c) = v.filled i k e in (k, x, e, c)

  collect_keys-IsStrings :
      {ns : List (Node A)} (fuel k : ℕ) (o : Option ℕ) {arr : StringArray} {xs : List Bytes}
      → IsKeyed ns
      → ((j : ℕ) → live ns j ≡ true → IsNext (live ns) (suc j) (node_at ns j).next)
      → length ns < k + fuel
      → IsNext (live ns) k o
      → IsStrings arr xs
      → length xs + length (entries (drop k ns)) ≤ max_position + 1
      → IsStrings (collect_keys ns fuel o arr) (xs ++ map (λ e. e.0) (entries (drop k ns)))
  unfolding collect_keys add_key
  collect_keys-IsStrings {ns} zero k none {arr} {xs} v nexts b h s c =
      rw (entries-next ns k none h, append-nil) s
  collect_keys-IsStrings {ns} zero k (some i) v nexts b h s c =
      absurd (let z = live_lt ns i h.0 in omega (arith, h.1))
  collect_keys-IsStrings {ns} (suc fuel) k none v nexts b h s c =
      rw (entries-next ns k none h, append-nil) s
  collect_keys-IsStrings {ns} (suc fuel) k (some i) {arr} {xs} v nexts b h s c =
      let (key, x, e, e') = next_node i v h.0 in
      let here = entries-next ns k (some i) h ∙ entries_at_live ns i e e' in
      let es = entries (drop (suc i) ns) in
      let c' : length xs + suc (length es) ≤ max_position + 1 =
        subst (λ z. length xs + length z ≤ max_position + 1) here c in
      let r =
        collect_keys-IsStrings fuel (suc i) (node_at ns i).next v nexts (omega (arith, h.1))
          (nexts i h.0) (add-IsStrings key s (omega arith))
          (omega (arith, length-append xs (key ∷ []))) in
      rw (here, e) (subst (IsStrings _) (append_assoc xs (key ∷ []) (map (λ e. e.0) es)) r)

  -- On a valid hash `osrfHashKeys` gives a string array that holds exactly the keys of its entries, in
  -- order.
  pub hash_keys-IsStrings :
      {h : OsrfHash A} → IsHash h → IsStrings (hash_keys h) (map (λ e. e.0) (entries h.nodes))
  unfolding hash_keys drop
  hash_keys-IsStrings {h} v =
      let b = length-entries h.nodes in
      collect_keys-IsStrings (length h.nodes + 1) 0 h.first_key v.keyed v.linked.nexts (omega arith)
        v.linked.from (new_string_array-IsStrings h.size (omega (arith, v.counted, v.small)))
        (omega (arith, v.small))

  abbrev while_item : Option A → List A → List A
  while_item none rest = []
  while_item (some x) rest = x ∷ rest

  -- what a client gets that calls `osrfHashIteratorNext` until it gives NULL, within `n` calls
  unfoldable pub iterate : OsrfHash A → ℕ → Option ℕ → List A
  iterate h zero curr_node = []
  iterate h (suc n) curr_node =
      let r = iterator_next h curr_node in while_item r.0 (iterate h n r.1)

  -- The iterator's next step goes to the next live node behind it.
  unfoldable pub IsParked : OsrfHash A → Option ℕ → Type 0
  IsParked h none = IsNext (live h.nodes) 0 h.first_key
  IsParked h (some i) = IsNext (live h.nodes) (suc i) (node_at h.nodes i).next

  iterator_next-some :
      (h : OsrfHash A) (i : ℕ)
      → let next = (node_at h.nodes i).next in
        iterator_next h (some i) ≡ (item_of h.nodes next, next)
  unfolding iterator_next
  iterator_next-some h i = refl

  iterate_from :
      {h : OsrfHash A} (n : ℕ) (k : ℕ) (curr_node o : Option ℕ)
      → IsHash h
      → IsNext (live h.nodes) k o
      → iterator_next h curr_node ≡ (item_of h.nodes o, o)
      → length h.nodes < k + n
      → iterate h n curr_node ≡ map (λ e. e.1) (entries (drop k h.nodes))
  unfolding iterate item_of
  iterate_from {h} zero k c none v p e b = rw (entries-next h.nodes k none p)
  iterate_from {h} zero k c (some i) v p e b =
      absurd (let z = live_lt h.nodes i p.0 in omega (arith, p.1))
  iterate_from {h} (suc n) k c none v p e b = rw (e, entries-next h.nodes k none p)
  iterate_from {h} (suc n) k c (some i) v p e b =
      let (key, x, a, a') = next_node i v.keyed p.0 in
      let here = entries-next h.nodes k (some i) p ∙ entries_at_live h.nodes i a a' in
      rw (e, here, a')
        (ap (λ z. x ∷ z)
          (iterate_from n (suc i) (some i) (node_at h.nodes i).next v (v.linked.nexts i p.0)
            (iterator_next-some h i) (omega (arith, p.1))))

  -- From such a position on a valid hash, calls of `osrfHashIteratorNext` give the items of all the
  -- entries behind it, in order, and then NULL.
  pub iterate-entries :
      {h : OsrfHash A} (n : ℕ) (curr_node : Option ℕ)
      → IsHash h
      → IsParked h curr_node
      → length h.nodes < n
      → iterate h n curr_node ≡ map (λ e. e.1) (entries (drop (behind curr_node) h.nodes))
  unfolding IsParked iterator_next
  iterate-entries n none v p b = iterate_from n 0 none _ v p refl (omega arith)
  iterate-entries n (some i) v p b = iterate_from n (suc i) (some i) _ v p refl (omega arith)
