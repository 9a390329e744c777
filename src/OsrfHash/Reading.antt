-- ===== src/OsrfHash/Reading.antt =====
-- Reading an osrfHash of src/libopensrf/osrf_hash.c after it has changed, and a new one.
use open_srf.Prelude.{
  ℕ, ◌≤◌, ◌≡◌, refl, sym, ap, ◌∙◌, inl, inr, true, false, none, some, List, [], ◌∷◌, arith,
  if◌then◌else◌, Bool-cases, length, Bytes, same_bytes, same_bytes_lem,
}
use open_srf.OsrfList.{OsrfList, get_index, new_list_size}
use open_srf.OsrfList.Valid.{max_position, new_list_size-IsValid}
use open_srf.OsrfHash.{OsrfHash, new_hash, set_callback, node_at, hash_set, hash_get}
use open_srf.OsrfHash.Entries.{entries, lookup, put}
use open_srf.OsrfHash.Find.{hash_get-lookup}
use open_srf.OsrfHash.Put.{hash_set-IsPut}
use open_srf.OsrfHash.Valid.{IsHash}

-- no bucket exists yet
get_index-new : {B : Type 0} (n i : ℕ) → get_index (new_list_size {A = B} n) i ≡ none
unfolding get_index new_list_size
get_index-new n i = ground arith

differ :
    (k key q : Bytes) → same_bytes k q ≡ true → same_bytes k key ≡ false → same_bytes key q ≡ false
differ k key q d e = elim (Bool-cases (same_bytes key q)) [
  | inr f ↦ f
  | inl f ↦
      let z =
        (same_bytes_lem k key).1 ((same_bytes_lem k q).0 d ∙ sym ((same_bytes_lem key q).0 f)) in
      absurd (ground arith)
]

module _ {A : Type 0} where
  -- `osrfNewHash` gives a valid hash without entries.
  pub new_hash-IsHash : IsHash (new_hash {A = A}) × (entries (new_hash {A = A}).nodes ≡ [])
  unfolding new_hash entries node_at
  new_hash-IsHash = (
    record {
      linked = record {
        from = λ j b. refl;
        to = λ j b. refl;
        nexts = λ j a. absurd (ground arith);
        prevs = λ j a. absurd (ground arith);
      };
      keyed = record {
        filled = λ i k e. absurd (cc);
        cleared = λ i e. refl;
        distinct = λ i j k e e'. absurd (cc);
      };
      bucketed = record {
        valid = new_list_size-IsValid 16 (omega arith);
        buckets = λ b l g. let z = get_index-new {B = OsrfList ℕ} 16 b in absurd (cc);
        homed = λ i k e. absurd (cc);
      };
      counted = refl;
      small = omega arith;
    },
    refl,
  )

  pub set_callback-IsHash : {h : OsrfHash A} → IsHash h → IsHash (set_callback h)
  unfolding set_callback
  set_callback-IsHash v = record {
    linked = v.linked;
    keyed = v.keyed;
    bucketed = v.bucketed;
    counted = v.counted;
    small = v.small;
  }

  pub lookup-put :
      (key q : Bytes) (x : A) (es : List (Bytes × A))
      → lookup q (put key x es) ≡ (if same_bytes key q then some x else lookup q es)
  unfolding lookup put
  lookup-put key q x [] = refl
  lookup-put key q x ((k, y) ∷ es) = elim (Bool-cases (same_bytes k key)) [
    | inl e ↦ rw (e, (same_bytes_lem k key).0 e) (ground arith)
    | inr e ↦ rw e (elim (Bool-cases (same_bytes k q)) [
      | inl d ↦ rw (d, differ k key q d e)
      | inr d ↦ rw d (lookup-put key q x es)
    ])
  ]

  -- After `osrfHashSet` of an item that is not NULL, on a valid hash whose nodes are within the range
  -- of the positions, `osrfHashGet` gives that item for the key, and for another key what it gave
  -- before.
  pub hash_get-hash_set :
      {h : OsrfHash A} (x : A) (key q : Bytes)
      → IsHash h
      → length h.nodes ≤ max_position
      → hash_get (hash_set h (some x) key).hash q
        ≡ (if same_bytes key q then some x else hash_get h q)
  hash_get-hash_set {h} x key q v small =
      let p = (hash_set-IsPut x key v small).0 in
      hash_get-lookup q p.valid
      ∙ ap (lookup q) p.entries
      ∙ lookup-put key q x (entries h.nodes)
      ∙ ap (λ o. if same_bytes key q then some x else o) (sym (hash_get-lookup q v))
