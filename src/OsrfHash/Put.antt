-- ===== src/OsrfHash/Put.antt =====
-- `osrfHashSet` of src/libopensrf/osrf_hash.c against the entries.
use open_srf.Prelude.{
  ℕ, suc, ◌≤◌, ◌<◌, ◌≡◌, ◌≢◌, refl, sym, ap, subst, ◌∙◌, inl, inr, true, Option, none, some, List,
  [], ◌∷◌, arith, ◌==◌, if◌then◌else◌, Bool-cases, length, length-set, Bytes, same_bytes, is_some,
}
use mathlib.Core.Path.{fun_ext}
use open_srf.OsrfList.Valid.{max_position}
use open_srf.OsrfHash.{OsrfHash, node_at, set_node_item, update_item, set_found, hash_set, item_of}
use open_srf.OsrfHash.Added.{add-IsHash, entries-add}
use open_srf.OsrfHash.Entries.{entries, lookup, lookup-first, put, put-first}
use open_srf.OsrfHash.Erase.{calls, calls-some, chosen, unchosen}
use open_srf.OsrfHash.Find.{find_item-Finds, item_of-lookup, IsFirst-Finds}
use open_srf.OsrfHash.Insertion.{add_item-IsAdded}
use open_srf.OsrfHash.Nodes.{field-set, field-set_same}
use open_srf.OsrfHash.Valid.{live, IsHash, Finds, live_lem, live_lt}

module _ {A : Type 0} where
  -- what is left when an item is stored under a key
  pub record IsPut (h : OsrfHash A) (key : Bytes) (x : A) (h' : OsrfHash A) : Type 0 where
    pub valid : IsHash h'
    pub entries : entries h'.nodes ≡ put key x (entries h.nodes)
    pub same_callback : h'.free_item ≡ h.free_item
    pub nodes : length h'.nodes ≤ suc (length h.nodes)

  -- the hash with another item in node `i`
  module _ (h : OsrfHash A) (i : ℕ) (x : A) where
    abbrev pub updated : OsrfHash A
    updated = record h { nodes = set_node_item h.nodes i x }

    pub key-update : (j : ℕ) → (node_at updated.nodes j).key ≡ (node_at h.nodes j).key
    unfolding set_node_item
    key-update j = field-set_same (λ n. n.key) h.nodes i j _ refl

    pub next-update : (j : ℕ) → (node_at updated.nodes j).next ≡ (node_at h.nodes j).next
    unfolding set_node_item
    next-update j = field-set_same (λ n. n.next) h.nodes i j _ refl

    prev-update : (j : ℕ) → (node_at updated.nodes j).prev ≡ (node_at h.nodes j).prev
    unfolding set_node_item
    prev-update j = field-set_same (λ n. n.prev) h.nodes i j _ refl

    pub item-update :
        (j : ℕ)
        → i < length h.nodes
        → (node_at updated.nodes j).item ≡ (if i == j then some x else (node_at h.nodes j).item)
    unfolding set_node_item
    item-update j b = field-set (λ n. n.item) h.nodes i j _ b

    pub length-update : length updated.nodes ≡ length h.nodes
    unfolding set_node_item
    length-update = length-set h.nodes i _

    pub live-update : live updated.nodes ≡ live h.nodes
    live-update = fun_ext λ j. ap is_some (key-update j)

  length-put_present :
      (key : Bytes) (x : A) (es : List (Bytes × A)) {y : A}
      → lookup key es ≡ some y
      → length (put key x es) ≡ length es
  unfolding lookup put
  length-put_present key x [] e = absurd (ground arith)
  length-put_present key x ((k, y) ∷ es) e = elim (Bool-cases (same_bytes k key)) [
    | inl d ↦ rw d
    | inr d ↦ rw d (ap suc (length-put_present key x es (rw d at e)))
  ]

  module _ {h : OsrfHash A} {key : Bytes} (i : ℕ) (x : A) (v : IsHash h)
      (e : (node_at h.nodes i).key ≡ some key) where
    pub entries-update : entries (updated h i x).nodes ≡ put key x (entries h.nodes)
    entries-update =
        let (y, c) = v.keyed.filled i key e in put-first h.nodes x (IsFirst-Finds i v.keyed e) c

    present : length (put key x (entries h.nodes)) ≡ length (entries h.nodes)
    present =
        let (y, c) = v.keyed.filled i key e in
        length-put_present key x (entries h.nodes)
          (lookup-first h.nodes (IsFirst-Finds i v.keyed e) c)

    pub update-IsHash : IsHash (updated h i x)
    update-IsHash = record {
      linked = record {
        from = rw (live-update h i x) v.linked.from;
        to = rw (live-update h i x, length-update h i x) v.linked.to;
        nexts = λ j a.
            rw (live-update h i x, next-update h i x j)
              (v.linked.nexts j (ap is_some (sym (key-update h i x j)) ∙ a));
        prevs = λ j a.
            rw (live-update h i x, prev-update h i x j)
              (v.linked.prevs j (ap is_some (sym (key-update h i x j)) ∙ a));
      };
      keyed = record {
        filled = λ j k a. elim (Bool-cases (i == j)) [
          | inl d ↦
              (x, item-update h i x j (live_lt h.nodes i (live_lem h.nodes i e)) ∙ ground arith)
          | inr d ↦
              let (y, c) = v.keyed.filled j k (sym (key-update h i x j) ∙ a) in
              (y, item-update h i x j (live_lt h.nodes i (live_lem h.nodes i e)) ∙ ground arith)
        ];
        cleared = λ j a. elim (Bool-cases (i == j)) [
          | inl d ↦ absurd (dead j d (sym (key-update h i x j) ∙ a))
          | inr d ↦
              item-update h i x j (live_lt h.nodes i (live_lem h.nodes i e))
              ∙ ground (arith, v.keyed.cleared j (sym (key-update h i x j) ∙ a))
        ];
        distinct = λ j l k a b.
            v.keyed.distinct j l k (sym (key-update h i x j) ∙ a) (sym (key-update h i x l) ∙ b);
      };
      bucketed = record {
        valid = v.bucketed.valid;
        buckets = λ b l g. rw (length-update h i x) (v.bucketed.buckets b l g);
        homed = λ j k a. v.bucketed.homed j k (sym (key-update h i x j) ∙ a);
      };
      counted = v.counted ∙ sym (ap length entries-update ∙ present);
      small = omega (arith, length-update h i x, v.small);
    }
      where
        dead : (j : ℕ) → (i == j) ≡ true → (node_at h.nodes j).key ≢ none
        dead j d a =
            let z : (node_at h.nodes i).key ≡ none =
              subst (λ l. (node_at h.nodes l).key ≡ none) (ground arith) a in
            absurd (cc)

  set_found_lem :
      {h : OsrfHash A} (x : A) (key : Bytes) (o : Option ℕ)
      → IsHash h
      → length h.nodes ≤ max_position
      → Finds h.nodes key o
      → let r = set_found h x key o in
        IsPut h key x r.hash
        × (r.item ≡ (if h.free_item then none else item_of h.nodes o))
        × (r.freed ≡ calls h.free_item key (item_of h.nodes o))
  unfolding set_found item_of update_item
  set_found_lem {h} x key none v small f =
      let u = add_item-IsAdded key x v small in
      (
        record {
          valid = add-IsHash v small f u;
          entries = entries-add v small f u;
          same_callback = u.same_callback;
          nodes = omega (arith, u.longer);
        },
        unchosen h.free_item,
        refl,
      )
  set_found_lem {h} x key (some i) v small f =
      let n = node_at h.nodes i in
      let (y, full) = v.keyed.filled i key f in
      let (a, b, c) = chosen h.free_item (updated h i x) n.key n.item in
      (
        subst (IsPut h key x) (sym a) (record {
          valid = update-IsHash i x v f;
          entries = entries-update i x v f;
          same_callback = refl;
          nodes = omega (arith, length-update h i x);
        }),
        b,
        c ∙ calls-some h.free_item key n.key n.item y f full,
      )

  -- `osrfHashSet` of an item that is not NULL, on a valid hash whose nodes are within the range of the
  -- positions, leaves a valid hash whose entries have the item under the key, in place if the key was
  -- there and behind all others if not. With a callback it passes the key and the item that was under
  -- it to the callback, if there was one, and returns NULL; without one it returns that item, or NULL
  -- if there was none.
  pub hash_set-IsPut :
      {h : OsrfHash A} (x : A) (key : Bytes)
      → IsHash h
      → length h.nodes ≤ max_position
      → let r = hash_set h (some x) key in
        IsPut h key x r.hash
        × (r.item ≡ (if h.free_item then none else lookup key (entries h.nodes)))
        × (r.freed ≡ calls h.free_item key (lookup key (entries h.nodes)))
  unfolding hash_set
  hash_set-IsPut {h} x key v small =
      let f = find_item-Finds key true v in
      let (a, b, c) = set_found_lem x key _ v small f in
      let e = item_of-lookup key _ v.keyed f in
      (a, b ∙ ap (λ o. if h.free_item then none else o) e, c ∙ ap (calls h.free_item key) e)
