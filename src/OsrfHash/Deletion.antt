-- ===== src/OsrfHash/Deletion.antt =====
-- src/libopensrf/osrf_hash.c: `osrfHashRemove` and `osrfHashExtract`.
use open_srf.Prelude.{
  ℕ, ◌+◌, ◌-◌, ◌%◌, false, Option, none, some, List, [], ◌∷◌, if◌then◌else◌, set, Bytes,
}
use open_srf.OsrfList.{uint_mod}
use open_srf.OsrfHash.{Node, OsrfHash, Outcome, node_at, set_next, set_prev, find_item}

module _ {ℓ} {A : Type ℓ} where
  -- "Mark the node as logically deleted"
  unfoldable pub mark_deleted : List (Node A) → ℕ → List (Node A)
  mark_deleted ns i = set ns i (record (node_at ns i) { key = none; item = none })

  -- the two tests that take a node with these pointers out of the linked list
  unfoldable pub bypass_prev : OsrfHash A → Option ℕ → Option ℕ → OsrfHash A
  unfolding set_next
  bypass_prev h (some p) next = record h { nodes = set_next h.nodes p next }
  bypass_prev h none next = record h { first_key = next }

  unfoldable pub bypass_next : OsrfHash A → Option ℕ → Option ℕ → OsrfHash A
  unfolding set_prev
  bypass_next h (some n) prev = record h { nodes = set_prev h.nodes n prev }
  bypass_next h none prev = record h { last_key = prev }

  -- the hash after `osrfHashRemove` or `osrfHashExtract` of node `i`
  unfoldable pub unlink : OsrfHash A → ℕ → OsrfHash A
  unfolding mark_deleted bypass_prev bypass_next
  unlink h i =
      let node = node_at h.nodes i in
      let marked = record h {
        size = (h.size + uint_mod - 1) % uint_mod;
        nodes = mark_deleted h.nodes i;
      } in
      bypass_next (bypass_prev marked node.prev node.next) node.next node.prev

  unfoldable pub extract_found : OsrfHash A → Option ℕ → Outcome A
  unfolding unlink
  extract_found h none = record { hash = h; freed = []; item = none }
  extract_found h (some i) = record {
    hash = unlink h i;
    freed = [];
    item = (node_at h.nodes i).item;
  }

  -- `osrfHashExtract`
  unfoldable pub hash_extract : OsrfHash A → Bytes → Outcome A
  unfolding find_item extract_found
  hash_extract h key = extract_found h (find_item h key false)

  unfoldable pub remove_found : OsrfHash A → Option ℕ → Outcome A
  unfolding unlink
  remove_found h none = record { hash = h; freed = []; item = none }
  remove_found h (some i) =
      let node = node_at h.nodes i in
      if h.free_item
      then record { hash = unlink h i; freed = (node.key, node.item) ∷ []; item = none }
      else record { hash = unlink h i; freed = []; item = node.item }

  -- `osrfHashRemove`
  unfoldable pub hash_remove : OsrfHash A → Bytes → Outcome A
  unfolding find_item remove_found
  hash_remove h key = remove_found h (find_item h key false)
