-- ===== src/OsrfHash.antt =====
-- src/libopensrf/osrf_hash.c: the osrfHash, buckets of nodes that also form a linked list.
-- A pointer to a node is its index in the store `nodes`, where nodes are allocated one behind the
-- other and stay until the hash is freed. A key is given as the format expands it. Each operation
-- that may run the callback `freeItem` also returns the arguments of its calls, in order.
pub mod Added
pub mod Buckets
pub mod Deletion
pub mod Entries
pub mod Erase
pub mod Find
pub mod Insertion
pub mod Links
pub mod Nodes
pub mod Parked
pub mod Put
pub mod Reading
pub mod Removal
pub mod RemovalValid
pub mod Traversal
pub mod Valid
pub mod Walks
mod Tests
use Prim.Native.Nat.{bit_xor}
use open_srf.Prelude.{
  ℕ, zero, suc, ◌+◌, ◌-◌, ◌*◌, ◌/◌, ◌%◌, ◌^◌, Bool, true, false, Option, none, some, List, [], ◌∷◌,
  ◌++◌, ltb, if◌then◌else◌, length, get_or, set, Bytes, same_bytes,
}
use open_srf.OsrfList
use open_srf.OsrfList.{OsrfList, get_index, uint_mod}
use open_srf.StringArray
use open_srf.StringArray.{StringArray}

-- `OSRF_HASH_LIST_SIZE`
abbrev pub hash_list_size : ℕ
hash_list_size = 16

-- `struct _osrfHashNodeStruct`
pub record Node {ℓ} (A : Type ℓ) : Type ℓ where
  pub key : Option Bytes
  pub item : Option A
  pub prev : Option ℕ
  pub next : Option ℕ

-- `struct _osrfHashStruct`, with the store of its nodes; `free_item` says whether a callback is
-- installed.
pub record OsrfHash {ℓ} (A : Type ℓ) : Type ℓ where
  pub hash : OsrfList (OsrfList ℕ)
  pub free_item : Bool
  pub size : ℕ
  pub first_key : Option ℕ
  pub last_key : Option ℕ
  pub nodes : List (Node A)

-- what an operation leaves behind, passes to `freeItem`, and returns
pub record Outcome {ℓ} (A : Type ℓ) : Type ℓ where
  pub hash : OsrfHash A
  pub freed : List (Option Bytes × Option A)
  pub item : Option A

-- a `char` that is promoted to `unsigned int`, where `char` is signed
unfoldable pub promote : ℕ → ℕ
promote c = if ltb c 128 then c else c + (2 ^ 32 - 256)

-- `h__ = ((h__ << 5) ^ (h__ >> 27)) ^ (*k__)` over the string
unfoldable pub mix : ℕ → Bytes → ℕ
unfolding promote
mix h [] = h
mix h (c ∷ s) = mix (bit_xor (bit_xor (h * 2 ^ 5 % uint_mod) (h / 2 ^ 27)) (promote c)) s

-- `OSRF_HASH_MAKE_KEY`, where `h__ & (OSRF_HASH_LIST_SIZE-1)` keeps the low four bits
unfoldable pub make_key : Bytes → ℕ
unfolding mix
make_key s = mix (length s % uint_mod) s % hash_list_size

-- `key && !strcmp( node->key, key )`, on a node's key
unfoldable pub is_key : Bytes → Option Bytes → Bool
is_key key none = false
is_key key (some k) = same_bytes k key

-- the table with its bucket `b` made if there is none, and that bucket
unfoldable pub ensure_bucket :
    OsrfList (OsrfList ℕ) → ℕ → Option (OsrfList ℕ) → OsrfList (OsrfList ℕ) × OsrfList ℕ
ensure_bucket t b (some bucket) = (t, bucket)
ensure_bucket t b none =
    let bucket = OsrfList.new_list in ((OsrfList.set_item t (some bucket) b).list, bucket)

-- the table after a change of its bucket `b`, which is changed through the pointer
unfoldable pub write_bucket : OsrfList (OsrfList ℕ) → ℕ → OsrfList ℕ → OsrfList (OsrfList ℕ)
write_bucket t b bucket = record t { arrlist = set t.arrlist b (some bucket) }

module _ {ℓ} {A : Type ℓ} where
  -- `osrfNewHash`
  unfoldable pub new_hash : OsrfHash A
  unfolding OsrfList.new_list_size
  new_hash = record {
    hash = OsrfList.new_list_size hash_list_size;
    free_item = false;
    size = 0;
    first_key = none;
    last_key = none;
    nodes = [];
  }

  unfoldable pub set_callback : OsrfHash A → OsrfHash A
  set_callback h = record h { free_item = true }

  -- the node that a pointer points to
  unfoldable pub node_at : List (Node A) → ℕ → Node A
  node_at ns i = get_or ns i (record { key = none; item = none; prev = none; next = none })

  unfoldable pub set_next : List (Node A) → ℕ → Option ℕ → List (Node A)
  set_next ns i o = set ns i (record (node_at ns i) { next = o })

  unfoldable pub set_prev : List (Node A) → ℕ → Option ℕ → List (Node A)
  set_prev ns i o = set ns i (record (node_at ns i) { prev = o })

  unfoldable pub set_node_item : List (Node A) → ℕ → A → List (Node A)
  set_node_item ns i x = set ns i (record (node_at ns i) { item = some x })

  -- the walk of `find_item` along the linked list, from `currnode` on. One round for each node of the
  -- store and one more are enough. A node on the list has a key.
  unfoldable pub walk : List (Node A) → Bytes → ℕ → Option ℕ → Option ℕ
  walk ns key zero currnode = none
  walk ns key (suc n) none = none
  walk ns key (suc n) (some i) =
      let rest = walk ns key n (node_at ns i).next in
      if is_key key (node_at ns i).key then some i else rest

  -- what one slot of a bucket gives the search, before the rest of the bucket
  unfoldable pub try_slot : List (Node A) → Bytes → Option ℕ → Option ℕ → Option ℕ
  try_slot ns key none rest = rest
  try_slot ns key (some i) rest = if is_key key (node_at ns i).key then some i else rest

  -- the loop of `find_item` over a bucket, with its rounds left
  unfoldable pub search : List (Node A) → Bytes → OsrfList ℕ → ℕ → ℕ → Option ℕ
  unfolding try_slot
  search ns key list zero k = none
  search ns key list (suc n) k =
      let rest = search ns key list n (k + 1) in try_slot ns key (get_index list k) rest

  unfoldable pub find_in_bucket : List (Node A) → Bytes → Option (OsrfList ℕ) → Option ℕ
  unfolding search
  find_in_bucket ns key none = none
  find_in_bucket ns key (some list) = search ns key list list.size 0

  -- `find_item`; `asked` says whether the caller wants the bucket's index, which is `make_key key`.
  unfoldable pub find_item : OsrfHash A → Bytes → Bool → Option ℕ
  unfolding walk find_in_bucket
  find_item h key asked =
      let linear = walk h.nodes key (length h.nodes + 1) h.first_key in
      let hashed = find_in_bucket h.nodes key (get_index h.hash (make_key key)) in
      if asked then hashed else (if ltb h.size 6 then linear else hashed)

  -- the branch of `osrfHashSet` that updates node `i` in place
  unfoldable pub update_item : OsrfHash A → A → ℕ → Outcome A
  unfolding set_node_item
  update_item h x i =
      let node = node_at h.nodes i in
      let h' = record h { nodes = set_node_item h.nodes i x } in
      if h.free_item
      then record { hash = h'; freed = (node.key, node.item) ∷ []; item = none }
      else record { hash = h'; freed = []; item = node.item }

  -- `osrfNewHashNode` into the store, with `osrfListPushFirst` on the bucket
  unfoldable pub push_node : OsrfHash A → Bytes → A → OsrfHash A
  unfolding ensure_bucket write_bucket
  push_node h key x =
      let b = make_key key in
      let (t, bucket) = ensure_bucket h.hash b (get_index h.hash b) in
      let pushed = (OsrfList.push_first bucket (some (length h.nodes))).1.list in
      record h {
        hash = write_bucket t b pushed;
        nodes = h.nodes ++ record { key = some key; item = some x; prev = none; next = none } ∷ [];
      }

  -- "Add the new hash node to the end of the linked list"
  unfoldable pub link_last : OsrfHash A → ℕ → Option ℕ → Option ℕ → OsrfHash A
  unfolding set_prev set_next
  link_last h node none last = record h { first_key = some node; last_key = some node }
  link_last h node (some f) none = record h {
    nodes = set_prev h.nodes node none;
    last_key = some node;
  }
  link_last h node (some f) (some last) = record h {
    nodes = set_next (set_prev h.nodes node (some last)) last (some node);
    last_key = some node;
  }

  -- the branch of `osrfHashSet` for a new key
  unfoldable pub add_item : OsrfHash A → Bytes → A → OsrfHash A
  unfolding push_node link_last
  add_item h key x =
      let pushed = push_node h key x in
      let counted = record pushed { size = (pushed.size + 1) % uint_mod } in
      link_last counted (length h.nodes) h.first_key h.last_key

  unfoldable pub set_found : OsrfHash A → A → Bytes → Option ℕ → Outcome A
  unfolding update_item add_item
  set_found h x key (some i) = update_item h x i
  set_found h x key none = record { hash = add_item h key x; freed = []; item = none }

  -- `osrfHashSet`
  unfoldable pub hash_set : OsrfHash A → Option A → Bytes → Outcome A
  unfolding find_item set_found
  hash_set h none key = record { hash = h; freed = []; item = none }
  hash_set h (some x) key = set_found h x key (find_item h key true)

  unfoldable pub item_of : List (Node A) → Option ℕ → Option A
  item_of ns none = none
  item_of ns (some i) = (node_at ns i).item

  -- `osrfHashGet` and `osrfHashGetFmt`
  unfoldable pub hash_get : OsrfHash A → Bytes → Option A
  unfolding find_item item_of
  hash_get h key = item_of h.nodes (find_item h key false)

  -- a hash after its item at a position is changed through the pointer to it
  unfoldable pub write_at : OsrfHash A → Option ℕ → A → OsrfHash A
  write_at h none x = h
  write_at h (some i) x = record h { nodes = set_node_item h.nodes i x }
