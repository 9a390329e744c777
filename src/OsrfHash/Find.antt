-- ===== src/OsrfHash/Find.antt =====
-- The two searches of `find_item` in src/libopensrf/osrf_hash.c, along the linked list and in a bucket.
use open_srf.Prelude.{
  ℕ, zero, suc, ◌+◌, ◌≤◌, ◌<◌, ◌≡◌, ◌≢◌, ◌↔◌, refl, sym, ap, ◌∙◌, inl, inr, true, false, Bool,
  Option, none, some, List, arith, ltb, if◌then◌else◌, Bool-cases, lt_or_ge, subst, length, Bytes,
  same_bytes_lem,
}
use open_srf.OsrfList.{OsrfList, get_index}
use open_srf.OsrfList.Valid
use open_srf.OsrfHash.{
  Node, OsrfHash, make_key, is_key, node_at, walk, try_slot, search, find_in_bucket, find_item,
  item_of, hash_get,
}
use open_srf.OsrfHash.Links.{IsNext}
use open_srf.OsrfHash.Entries.{entries, IsFirst, lookup, lookup-absent, lookup-first}
use open_srf.OsrfHash.Valid.{IsKeyed, IsHash, Finds, live, live-beyond, live_lem}

pub get_index_lt :
    {B : Type 0} (l : OsrfList B) (p : ℕ) {x : B} → get_index l p ≡ some x → p < l.size
unfolding get_index
get_index_lt l p e = ground arith

module _ {A : Type 0} where
  module _ (ns : List (Node A)) (key : Bytes) where
    is_key_lem : (o : Option Bytes) → (is_key key o ≡ true) ↔ (o ≡ some key)
    unfolding is_key
    is_key_lem none = ground arith
    is_key_lem (some k) =
        (λ e. ap some ((same_bytes_lem k key).0 e), λ e. (same_bytes_lem k key).1 (cc))

    -- a position without a key, or with another one
    other_key : (i : ℕ) → live ns i ≡ false → (node_at ns i).key ≢ some key
    other_key i d e = absurd (ground (arith, live_lem ns i e))

    missed : (o : Option Bytes) → is_key key o ≡ false → o ≢ some key
    missed o d e = absurd (ground (arith, (is_key_lem o).1 e))

    walk-Finds :
        (fuel k : ℕ) (o : Option ℕ)
        → length ns < k + fuel
        → IsNext (live ns) k o
        → ((j : ℕ) → live ns j ≡ true → IsNext (live ns) (suc j) (node_at ns j).next)
        → ((j : ℕ) → j < k → (node_at ns j).key ≢ some key)
        → Finds ns key (walk ns key fuel o)
    unfolding walk
    walk-Finds zero k o b h nexts before = λ i. elim (lt_or_ge i k) [
      | inl l ↦ before i l
      | inr l ↦ other_key i (live-beyond ns i (omega arith))
    ]
    walk-Finds (suc fuel) k none b h nexts before =
        λ i. elim (lt_or_ge i k) [ inl l ↦ before i l | inr l ↦ other_key i (h i l) ]
    walk-Finds (suc fuel) k (some i) b h nexts before =
        elim (Bool-cases (is_key key (node_at ns i).key)) [
          | inl e ↦ rw e ((is_key_lem _).0 e)
          | inr e ↦ rw e (
              walk-Finds fuel (suc i) _ (omega (arith, h.1)) (nexts i h.0) nexts (λ j l.
                elim (lt_or_ge j k) [
                  | inl m ↦ before j m
                  | inr m ↦ elim (lt_or_ge j i) [
                    | inl m' ↦ other_key j (h.2 j m m')
                    | inr m' ↦ subst (λ a. (node_at ns a).key ≢ some key) (omega arith) (missed _ e)
                  ]
                ]))
        ]

    -- what a search of the `n` slots from `k` on gives
    Searched : OsrfList ℕ → ℕ → ℕ → Option ℕ → Type 0
    Searched l n k none =
        (p i : ℕ) → k ≤ p → p < k + n → get_index l p ≡ some i → (node_at ns i).key ≢ some key
    Searched l n k (some i) = (node_at ns i).key ≡ some key

    Searched-suc :
        (l : OsrfList ℕ) (n k : ℕ) (s o : Option ℕ)
        → get_index l k ≡ s
        → Searched l n (k + 1) o
        → Searched l (suc n) k (try_slot ns key s o)
    unfolding Searched try_slot
    Searched-suc l n k none none g h = λ p i b c e. elim (lt_or_ge k p) [
      | inl m ↦ h p i (omega arith) (omega arith) e
      | inr m ↦ let z = hit p i e (omega arith) in absurd (cc)
    ]
      where
        hit : (p i : ℕ) → get_index l p ≡ some i → k ≡ p → none ≡ some i
        hit p i e m = absurd (cc)
    Searched-suc l n k none (some o) g h = h
    Searched-suc l n k (some s) o g h = elim (Bool-cases (is_key key (node_at ns s).key)) [
      | inl e ↦ rw e ((is_key_lem _).0 e)
      | inr e ↦ rw e (later e o h)
    ]
      where
        hit : (p i : ℕ) → get_index l p ≡ some i → k ≡ p → s ≡ i
        hit p i e m = cc

        later :
            is_key key (node_at ns s).key ≡ false
            → (o : Option ℕ) → Searched l n (k + 1) o
            → Searched l (suc n) k o
        later e' (some o) h = h
        later e' none h = λ p i b c e. elim (lt_or_ge k p) [
          | inl m ↦ h p i (omega arith) (omega arith) e
          | inr m ↦
              subst (λ a. (node_at ns a).key ≢ some key) (hit p i e (omega arith)) (missed _ e')
        ]

    search-Searched : (l : OsrfList ℕ) (n k : ℕ) → Searched l n k (search ns key l n k)
    unfolding Searched search
    search-Searched l zero k = λ p i b c. absurd (omega arith)
    search-Searched l (suc n) k = Searched-suc l n k _ _ refl (search-Searched l n (k + 1))

    -- a search of the whole bucket that holds every node with the key
    search-Finds :
        {l : OsrfList ℕ}
        → Valid.IsValid l
        → ((i : ℕ) → (node_at ns i).key ≡ some key → (p : ℕ) × (get_index l p ≡ some i))
        → Finds ns key (search ns key l l.size 0)
    unfolding Searched
    search-Finds {l} v homed = whole _ (search-Searched l l.size 0)
      where
        whole : (o : Option ℕ) → Searched l l.size 0 o → Finds ns key o
        whole (some i) h = h
        whole none h = λ i e.
            let (p, g) = homed i e in h p i (omega arith) (omega (arith, get_index_lt l p g)) g e

  bucket-Finds :
      {h : OsrfHash A} (v : IsHash h) (key : Bytes) (o : Option (OsrfList ℕ))
      → get_index h.hash (make_key key) ≡ o
      → Finds h.nodes key (find_in_bucket h.nodes key o)
  unfolding find_in_bucket
  bucket-Finds v key none g = λ i e. let (l, p, a, b) = v.bucketed.homed i key e in absurd (cc)
  bucket-Finds {h} v key (some l) g =
      search-Finds h.nodes key (v.bucketed.buckets _ l g).0
        (λ i e. let (l', p, a, b) = v.bucketed.homed i key e in (p, same_bucket l' p i a b))
    where
      same_bucket :
          (l' : OsrfList ℕ) (p i : ℕ)
          → get_index h.hash (make_key key) ≡ some l'
          → get_index l' p ≡ some i
          → get_index l p ≡ some i
      same_bucket l' p i a b = cc

  -- On a valid hash `find_item` finds the node with the key, whether or not the caller asks for the
  -- bucket, and `none` exactly where no node has it.
  pub find_item-Finds :
      {h : OsrfHash A} (key : Bytes) (asked : Bool)
      → IsHash h
      → Finds h.nodes key (find_item h key asked)
  unfolding find_item
  find_item-Finds {h} key asked v = choose asked (ltb h.size 6)
    where
      linear : Finds h.nodes key (walk h.nodes key (length h.nodes + 1) h.first_key)
      linear =
          walk-Finds h.nodes key (length h.nodes + 1) 0 h.first_key (omega arith) v.linked.from
            v.linked.nexts (λ j b. absurd (omega arith))

      hashed : Finds h.nodes key (find_in_bucket h.nodes key (get_index h.hash (make_key key)))
      hashed = bucket-Finds v key _ refl

      choose :
          (a b : Bool)
          → Finds h.nodes key (
              if a
              then find_in_bucket h.nodes key (get_index h.hash (make_key key))
              else (if b
                  then walk h.nodes key (length h.nodes + 1) h.first_key
                  else find_in_bucket h.nodes key (get_index h.hash (make_key key))))
      choose true b = hashed
      choose false true = linear
      choose false false = hashed

  pub IsFirst-Finds :
      {ns : List (Node A)} {key : Bytes} (i : ℕ)
      → IsKeyed ns
      → (node_at ns i).key ≡ some key
      → IsFirst ns key i
  IsFirst-Finds {ns} {key} i v e = record {
    here = e;
    before = λ j l e'. absurd (omega (arith, v.distinct i j key e e'));
  }

  pub Finds-unique :
      {ns : List (Node A)} (key : Bytes) (a b : Option ℕ)
      → IsKeyed ns
      → Finds ns key a
      → Finds ns key b
      → a ≡ b
  Finds-unique key none none v f g = refl
  Finds-unique key none (some j) v f g = absurd (f j g)
  Finds-unique key (some i) none v f g = absurd (g i f)
  Finds-unique key (some i) (some j) v f g = ap some (v.distinct i j key f g)

  -- On a valid hash the search of the bucket and the search that `find_item` makes when the caller
  -- does not ask for the bucket, which follows the linked list while there are fewer than six items,
  -- find the same node, or both none.
  pub find_item-agree :
      {h : OsrfHash A} (key : Bytes) → IsHash h → find_item h key true ≡ find_item h key false
  find_item-agree key v =
      Finds-unique key _ _ v.keyed (find_item-Finds key true v) (find_item-Finds key false v)

  pub item_of-lookup :
      {ns : List (Node A)} (key : Bytes) (o : Option ℕ)
      → IsKeyed ns
      → Finds ns key o
      → item_of ns o ≡ lookup key (entries ns)
  unfolding item_of
  item_of-lookup {ns} key none v f = sym (lookup-absent ns key f)
  item_of-lookup {ns} key (some i) v f =
      let (x, e) = v.filled i key f in e ∙ sym (lookup-first ns (IsFirst-Finds i v f) e)

  -- On a valid hash `osrfHashGet` gives the item that its entries have under the key, or NULL if
  -- they have none.
  pub hash_get-lookup :
      {h : OsrfHash A} (key : Bytes) → IsHash h → hash_get h key ≡ lookup key (entries h.nodes)
  unfolding hash_get
  hash_get-lookup key v = item_of-lookup key _ v.keyed (find_item-Finds key false v)
