-- ===== src/OsrfHash/Traversal.antt =====
-- src/libopensrf/osrf_hash.c: the keys in order, the iterator, and what freeing a hash visits.
use open_srf.Prelude.{
  ℕ, zero, suc, ◌+◌, Bool, Option, none, some, List, [], ◌∷◌, ◌++◌, if◌then◌else◌, is_some, length,
  Bytes,
}
use open_srf.OsrfList
use open_srf.OsrfList.{OsrfList}
use open_srf.StringArray
use open_srf.StringArray.{StringArray}
use open_srf.OsrfHash.{Node, OsrfHash, node_at, item_of}

unfoldable pub add_key : StringArray → Option Bytes → StringArray
add_key strings none = strings
add_key strings (some key) = StringArray.add strings key

-- `osrfHashIteratorReset`; a new iterator is there too.
unfoldable pub iterator_reset : Option ℕ → Option ℕ
iterator_reset curr_node = none

module _ {ℓ} {A : Type ℓ} where
  -- the loop of `osrfHashKeys`, with rounds as for `walk`
  unfoldable pub collect_keys : List (Node A) → ℕ → Option ℕ → StringArray → StringArray
  unfolding add_key
  collect_keys ns zero currnode strings = strings
  collect_keys ns (suc n) none strings = strings
  collect_keys ns (suc n) (some i) strings =
      collect_keys ns n (node_at ns i).next (add_key strings (node_at ns i).key)

  -- `osrfHashKeys`
  unfoldable pub hash_keys : OsrfHash A → StringArray
  unfolding collect_keys
  hash_keys h =
      collect_keys h.nodes (length h.nodes + 1) h.first_key (StringArray.new_string_array h.size)

  unfoldable pub hash_get_count : OsrfHash A → ℕ
  hash_get_count h = h.size

  -- `osrfHashIteratorNext`, on the iterator's `curr_node`: the item and the new `curr_node`
  unfoldable pub iterator_next : OsrfHash A → Option ℕ → Option A × Option ℕ
  unfolding item_of
  iterator_next h none = (item_of h.nodes h.first_key, h.first_key)
  iterator_next h (some i) = let next = (node_at h.nodes i).next in (item_of h.nodes next, next)

  unfoldable pub iterator_key : OsrfHash A → Option ℕ → Option Bytes
  iterator_key h none = none
  iterator_key h (some i) = (node_at h.nodes i).key

  -- `osrfHashIteratorHasNext`
  unfoldable pub iterator_has_next : OsrfHash A → Option ℕ → Bool
  iterator_has_next h none = is_some h.first_key
  iterator_has_next h (some i) = is_some (node_at h.nodes i).next

  -- `OSRF_HASH_NODE_FREE` on a bucket: the arguments of the calls of `freeItem`
  unfoldable pub free_nodes : List (Node A) → List ℕ → List (Bytes × Option A)
  free_nodes ns [] = []
  free_nodes ns (i ∷ is) = elim (node_at ns i).key [
    | none ↦ free_nodes ns is
    | some key ↦ (key, (node_at ns i).item) ∷ free_nodes ns is
  ]

  unfoldable pub free_buckets : List (Node A) → List (OsrfList ℕ) → List (Bytes × Option A)
  unfolding free_nodes OsrfList.items
  free_buckets ns [] = []
  free_buckets ns (list ∷ lists) =
      free_nodes ns (OsrfList.items list.size list.arrlist) ++ free_buckets ns lists

  -- `osrfHashFree`: the arguments of the calls of `freeItem`
  unfoldable pub hash_free : OsrfHash A → List (Bytes × Option A)
  unfolding free_buckets OsrfList.items
  hash_free h =
      if h.free_item then free_buckets h.nodes (OsrfList.items h.hash.size h.hash.arrlist) else []
