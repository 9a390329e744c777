-- ===== src/OsrfHash/Erase.antt =====
-- `osrfHashRemove` and `osrfHashExtract` of src/libopensrf/osrf_hash.c against the entries.
use open_srf.Prelude.{
  ℕ, ◌≡◌, subst, refl, sym, ◌∙◌, ap, Bool, true, false, Option, none, some, List, [], ◌∷◌,
  if◌then◌else◌, length, Bytes,
}
use open_srf.OsrfHash.{OsrfHash, Outcome, node_at, item_of}
use open_srf.OsrfHash.Deletion.{unlink, remove_found, extract_found, hash_remove, hash_extract}
use open_srf.OsrfHash.Entries.{entries, lookup, erase, erase-absent}
use open_srf.OsrfHash.Find.{find_item-Finds, item_of-lookup}
use open_srf.OsrfHash.Removal.{unlink-IsUnlinked}
use open_srf.OsrfHash.RemovalValid.{unlink-IsHash, entries-unlink}
use open_srf.OsrfHash.Valid.{IsHash, Finds}

module _ {A : Type 0} where
  -- the calls of `freeItem` for what was under a key
  abbrev pub calls : Bool → Bytes → Option A → List (Option Bytes × Option A)
  calls b key none = []
  calls b key (some x) = if b then (some key, some x) ∷ [] else []

  -- what is left when an entry goes
  pub record IsErased (h : OsrfHash A) (key : Bytes) (h' : OsrfHash A) : Type 0 where
    pub valid : IsHash h'
    pub entries : entries h'.nodes ≡ erase key (entries h.nodes)
    pub same_callback : h'.free_item ≡ h.free_item
    pub same_length : length h'.nodes ≡ length h.nodes

  extract_found_lem :
      {h : OsrfHash A} (key : Bytes) (o : Option ℕ)
      → IsHash h
      → Finds h.nodes key o
      → let r = extract_found h o in
        IsErased h key r.hash × (r.item ≡ item_of h.nodes o) × (r.freed ≡ [])
  unfolding extract_found item_of
  extract_found_lem {h} key none v f = (
    record {
      valid = v;
      entries = sym (erase-absent h.nodes key f);
      same_callback = refl;
      same_length = refl;
    },
    refl,
    refl,
  )
  extract_found_lem {h} key (some i) v f =
      let u = unlink-IsUnlinked v f in
      (
        record {
          valid = unlink-IsHash v f u;
          entries = entries-unlink v f u;
          same_callback = u.same_callback;
          same_length = u.same_length;
        },
        refl,
        refl,
      )

  pub unchosen : (b : Bool) → ◌≡◌ {A = Option A} none (if b then none else none)
  unchosen true = refl
  unchosen false = refl

  pub chosen :
      (b : Bool) (h : OsrfHash A) (k : Option Bytes) (x : Option A)
      → let r : Outcome A =
          if b
          then record { hash = h; freed = (k, x) ∷ []; item = none }
          else record { hash = h; freed = []; item = x } in
        (r.hash ≡ h)
        × (r.item ≡ (if b then none else x))
        × (r.freed ≡ (if b then (k, x) ∷ [] else []))
  chosen true h k x = (refl, refl, refl)
  chosen false h k x = (refl, refl, refl)

  pub calls-some :
      (b : Bool) (key : Bytes) (k : Option Bytes) (x : Option A) (y : A)
      → k ≡ some key
      → x ≡ some y
      → (if b then (k, x) ∷ [] else []) ≡ calls b key x
  calls-some b key k x y e e' = rw (e, e')

  remove_found_lem :
      {h : OsrfHash A} (key : Bytes) (o : Option ℕ)
      → IsHash h
      → Finds h.nodes key o
      → let r = remove_found h o in
        IsErased h key r.hash
        × (r.item ≡ (if h.free_item then none else item_of h.nodes o))
        × (r.freed ≡ calls h.free_item key (item_of h.nodes o))
  unfolding remove_found item_of
  remove_found_lem {h} key none v f = (
    record {
      valid = v;
      entries = sym (erase-absent h.nodes key f);
      same_callback = refl;
      same_length = refl;
    },
    unchosen h.free_item,
    refl,
  )
  remove_found_lem {h} key (some i) v f =
      let u = unlink-IsUnlinked v f in
      let n = node_at h.nodes i in
      let (x, full) = v.keyed.filled i key f in
      let (a, b, c) = chosen h.free_item (unlink h i) n.key n.item in
      (
        subst (IsErased h key) (sym a) (record {
          valid = unlink-IsHash v f u;
          entries = entries-unlink v f u;
          same_callback = u.same_callback;
          same_length = u.same_length;
        }),
        b,
        c ∙ calls-some h.free_item key n.key n.item x f full,
      )

  -- `osrfHashExtract` on a valid hash leaves a valid one without the entry for the key, returns the
  -- item that was under it, or NULL if there was none, and calls no callback.
  pub hash_extract-IsErased :
      {h : OsrfHash A} (key : Bytes)
      → IsHash h
      → let r = hash_extract h key in
        IsErased h key r.hash × (r.item ≡ lookup key (entries h.nodes)) × (r.freed ≡ [])
  unfolding hash_extract
  hash_extract-IsErased {h} key v =
      let f = find_item-Finds key false v in
      let (a, b, c) = extract_found_lem key _ v f in (a, b ∙ item_of-lookup key _ v.keyed f, c)

  -- `osrfHashRemove` on a valid hash leaves a valid one without the entry for the key. With a callback
  -- it passes the key and the item that was under it to the callback, if there was one, and returns
  -- NULL; without one it returns that item, or NULL if there was none.
  pub hash_remove-IsErased :
      {h : OsrfHash A} (key : Bytes)
      → IsHash h
      → let r = hash_remove h key in
        IsErased h key r.hash
        × (r.item ≡ (if h.free_item then none else lookup key (entries h.nodes)))
        × (r.freed ≡ calls h.free_item key (lookup key (entries h.nodes)))
  unfolding hash_remove
  hash_remove-IsErased {h} key v =
      let f = find_item-Finds key false v in
      let (a, b, c) = remove_found_lem key _ v f in
      let e = item_of-lookup key _ v.keyed f in
      (a, b ∙ ap (λ o. if h.free_item then none else o) e, c ∙ ap (calls h.free_item key) e)
