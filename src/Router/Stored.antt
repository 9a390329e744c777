-- ===== src/Router/Stored.antt =====
-- A property of everything that is stored in an osrfHash, as src/router/osrf_router.c uses its hashes.
use open_srf.Prelude.{
  ℕ, suc, ◌+◌, ◌≤◌, ◌≡◌, refl, sym, ap, subst, ◌∙◌, inl, inr, false, Option, none, some, List, [],
  ◌∷◌, arith, Bool-cases, length, Bytes, same_bytes, same_bytes_lem,
}
use open_srf.OsrfList.Valid.{max_position}
use open_srf.OsrfHash.Reading.{lookup-put, new_hash-IsHash, set_callback-IsHash}
use open_srf.OsrfHash.{
  write_at, OsrfHash, new_hash, set_callback, node_at, hash_set, hash_get, find_item,
}
use open_srf.OsrfHash.Deletion.{hash_remove}
use open_srf.OsrfHash.Entries.{entries, lookup, lookup-absent, put, erase}
use open_srf.OsrfHash.Erase.{hash_remove-IsErased}
use open_srf.OsrfHash.Find.{hash_get-lookup, find_item-Finds}
use open_srf.OsrfHash.Put.{IsPut, hash_set-IsPut, update-IsHash, entries-update, length-update}
use open_srf.OsrfHash.Valid.{IsHash, Finds}

module _ {A : Type 0} where
  unfoldable pub All : (Bytes × A → Type 0) → List (Bytes × A) → Type 0
  All P [] = Unit
  All P (e ∷ es) = P e × All P es

  module _ (P : Bytes × A → Type 0) where
    All-put :
        (key : Bytes) (x : A) (es : List (Bytes × A)) → P (key, x) → All P es → All P (put key x es)
    unfolding All put
    All-put key x [] p a = (p, tt)
    All-put key x ((k, y) ∷ es) p a = elim (Bool-cases (same_bytes k key)) [
      | inl e ↦ rw e (subst (λ z. P (z, x)) (sym ((same_bytes_lem k key).0 e)) p, a.1)
      | inr e ↦ rw e (a.0, All-put key x es p a.1)
    ]

    All-erase : (key : Bytes) (es : List (Bytes × A)) → All P es → All P (erase key es)
    unfolding All erase
    All-erase key [] a = tt
    All-erase key ((k, y) ∷ es) a = elim (Bool-cases (same_bytes k key)) [
      | inl e ↦ rw e a.1
      | inr e ↦ rw e (a.0, All-erase key es a.1)
    ]

    All-lookup :
        (key : Bytes) {x : A} (es : List (Bytes × A))
        → All P es
        → lookup key es ≡ some x
        → P (key, x)
    unfolding All lookup
    All-lookup key [] a h = absurd (cc)
    All-lookup key {x} ((k, y) ∷ es) a h = elim (Bool-cases (same_bytes k key)) [
      | inl e ↦
          let same : y ≡ x = let z = h in ground arith in
          subst (λ z. P (z, x)) ((same_bytes_lem k key).0 e) (subst (λ z. P (k, z)) same a.0)
      | inr e ↦ All-lookup key es a.1 (rw e at h)
    ]

    All-map :
        (Q : Bytes × A → Type 0)
        → ((e : Bytes × A) → P e → Q e)
        → (es : List (Bytes × A)) → All P es
        → All Q es
    unfolding All
    All-map Q f [] a = tt
    All-map Q f (e ∷ es) a = (f e a.0, All-map Q f es a.1)

  -- A valid hash with room for `n` more nodes, where every entry has the property.
  pub record Holds (P : Bytes × A → Type 0) (n : ℕ) (h : OsrfHash A) : Type 0 where
    pub valid : IsHash h
    pub all : All P (entries h.nodes)
    pub room : length h.nodes + n ≤ max_position

  module _ {P : Bytes × A → Type 0} {n : ℕ} {h : OsrfHash A} where
    pub Holds-get : (key : Bytes) {x : A} → Holds P n h → hash_get h key ≡ some x → P (key, x)
    Holds-get key v e =
        All-lookup P key (entries h.nodes) v.all (sym (hash_get-lookup key v.valid) ∙ e)

    pub Holds-remove : (key : Bytes) → Holds P n h → Holds P n (hash_remove h key).hash
    Holds-remove key v =
        let r = (hash_remove-IsErased key v.valid).0 in
        record {
          valid = r.valid;
          all = rw r.entries (All-erase P key (entries h.nodes) v.all);
          room = rw r.same_length v.room;
        }

    pub Holds-set :
        (key : Bytes) (x : A)
        → Holds P (suc n) h
        → P (key, x)
        → Holds P n (hash_set h (some x) key).hash
    Holds-set key x v p =
        let r = (hash_set-IsPut x key v.valid (omega (arith, v.room))).0 in
        record {
          valid = r.valid;
          all = rw r.entries (All-put P key x (entries h.nodes) p v.all);
          room = omega (arith, v.room, r.nodes);
        }

    -- an item that is changed where it is
    pub Holds-write_at :
        (i : ℕ) (key : Bytes) (x : A)
        → Holds P n h
        → (node_at h.nodes i).key ≡ some key
        → P (key, x)
        → Holds P n (write_at h (some i) x)
    unfolding write_at
    Holds-write_at i key x v e p = record {
      valid = update-IsHash i x v.valid e;
      all = rw (entries-update i x v.valid e) (All-put P key x (entries h.nodes) p v.all);
      room = rw (length-update h i x) v.room;
    }

    pub Holds-write :
        (key : Bytes) (x : A)
        → Holds P n h
        → P (key, x)
        → Holds P n (write_at h (find_item h key false) x)
    Holds-write key x v p = go _ (find_item-Finds key false v.valid)
      where
        go : (o : Option ℕ) → Finds h.nodes key o → Holds P n (write_at h o x)
        go none f = unfold write_at in v
        go (some i) f = Holds-write_at i key x v f p

  erase-put :
      (key : Bytes) (x : A) {y : A} (es : List (Bytes × A))
      → lookup key es ≡ some y
      → erase key (put key x es) ≡ erase key es
  unfolding erase put lookup
  erase-put key x [] e = absurd (cc)
  erase-put key x ((k, y) ∷ es) e = elim (Bool-cases (same_bytes k key)) [
    | inl d ↦ rw (d, d)
    | inr d ↦ rw (d, d) (ap (λ z. (k, y) ∷ z) (erase-put key x es (rw d at e)))
  ]

  -- an item that is changed where it is and then goes
  pub Holds-write_remove :
      {P : Bytes × A → Type 0} {n : ℕ} {h : OsrfHash A} (key : Bytes) (x : A) {y : A}
      → Holds P n h
      → hash_get h key ≡ some y
      → Holds P n (hash_remove (write_at h (find_item h key false) x) key).hash
  unfolding write_at
  Holds-write_remove {P} {n} {h} key x v e = go _ (find_item-Finds key false v.valid)
    where
      go : (o : Option ℕ) → Finds h.nodes key o → Holds P n (hash_remove (write_at h o x) key).hash
      go none f = Holds-remove key v
      go (some i) f =
          let w = update-IsHash i x v.valid f in
          let r = (hash_remove-IsErased key w).0 in
          let there = erase-put key x (entries h.nodes) (sym (hash_get-lookup key v.valid) ∙ e) in
          record {
            valid = r.valid;
            all =
                rw (r.entries, entries-update i x v.valid f, there)
                  (All-erase P key (entries h.nodes) v.all);
            room = rw (r.same_length, length-update h i x) v.room;
          }

  pub Holds-weaken :
      {P Q : Bytes × A → Type 0} {n m : ℕ} {h : OsrfHash A}
      → m ≤ n
      → ((e : Bytes × A) → P e → Q e)
      → Holds P n h
      → Holds Q m h
  Holds-weaken {P} {Q} {h} l f v = record {
    valid = v.valid;
    all = All-map P Q f (entries h.nodes) v.all;
    room = omega (arith, v.room);
  }

  pub new_hash-Holds :
      {P : Bytes × A → Type 0} {n : ℕ}
      → n ≤ max_position
      → Holds P n (set_callback (new_hash {A = A}))
  unfolding new_hash set_callback All
  new_hash-Holds l = record {
    valid = set_callback-IsHash new_hash-IsHash.0;
    all = rw (new_hash-IsHash {A = A}).1 tt;
    room = omega arith;
  }

  put-put :
      (key : Bytes) (x y : A) (es : List (Bytes × A)) → put key y (put key x es) ≡ put key y es
  unfolding put
  put-put key x y [] = rw ((same_bytes_lem key key).1 refl)
  put-put key x y ((k, z) ∷ es) = elim (Bool-cases (same_bytes k key)) [
    | inl d ↦ rw (d, d)
    | inr d ↦ rw (d, d) (ap (λ t. (k, z) ∷ t) (put-put key x y es))
  ]

  -- a new item that is changed where it is
  pub Holds-set_write :
      {P : Bytes × A → Type 0} {n : ℕ} {h : OsrfHash A} (key : Bytes) (x y : A)
      → Holds P (suc n) h
      → P (key, y)
      → let h' = (hash_set h (some x) key).hash in
        Holds P n (write_at h' (find_item h' key false) y)
  unfolding write_at
  Holds-set_write {P} {n} {h} key x y v p =
      let r = (hash_set-IsPut x key v.valid (omega (arith, v.room))).0 in
      go r _ (find_item-Finds key false r.valid)
    where
      go :
          IsPut h key x (hash_set h (some x) key).hash
          → (o : Option ℕ) → Finds (hash_set h (some x) key).hash.nodes key o
          → Holds P n (write_at (hash_set h (some x) key).hash o y)
      go r none f = absurd (let z = lookup-absent _ key f in let w = there r in cc)
        where
          there :
              IsPut h key x (hash_set h (some x) key).hash
              → lookup key (entries (hash_set h (some x) key).hash.nodes) ≡ some x
          there r =
              ap (lookup key) r.entries
              ∙ lookup-put key key x (entries h.nodes)
              ∙ rw ((same_bytes_lem key key).1 refl) refl
      go r (some i) f = record {
        valid = update-IsHash i y r.valid f;
        all =
            rw (entries-update i y r.valid f, r.entries, put-put key x y (entries h.nodes))
              (All-put P key y (entries h.nodes) p v.all);
        room = omega (arith, length-update (hash_set h (some x) key).hash i y, r.nodes, v.room);
      }
