-- ===== src/OsrfHash/Buckets.antt =====
-- The table of buckets in src/libopensrf/osrf_hash.c when a node is added.
use open_srf.Prelude.{
  ℕ, suc, ◌≤◌, ◌<◌, ◌≡◌, refl, sym, ap, subst, ◌∙◌, inl, inr, false, Option, none, some, List,
  arith, ◌==◌, if◌then◌else◌, Bool-cases, length, length-set, Bytes,
}
use open_srf.OsrfList
use open_srf.OsrfList.{OsrfList, get_index, push_first, new_list, new_list_size, set_item}
use open_srf.OsrfList.Access.{get_index-slot, get_index-set_item, size-set_item}
use open_srf.OsrfList.Search.{push_first_lem}
use open_srf.OsrfList.Valid.{
  IsValid, max_position, slot-set, set_item-IsValid, push_first-IsValid, first_free_bounds,
  new_list_size-IsValid,
}
use open_srf.OsrfHash.{Node, node_at, make_key, ensure_bucket, write_bucket}
use open_srf.OsrfHash.Find.{get_index_lt}
use open_srf.OsrfHash.Valid.{IsBucketed}

-- `OSRF_HASH_MAKE_KEY` gives an index of the table.
pub make_key_lt : (key : Bytes) → make_key key < 16
unfolding make_key
make_key_lt key = omega arith

size-push_first :
    {l : OsrfList ℕ} (x : ℕ)
    → IsValid l
    → l.size ≤ max_position
    → (push_first l (some x)).1.list.size ≤ suc l.size
unfolding push_first
size-push_first {l} x v h =
    let b = first_free_bounds l.arrlist l.size 0 in
    let s = size-set_item (some x) (OsrfList.first_free l.arrlist l.size 0) v (omega arith) in
    ground (arith, s)

-- What adding a pointer to a bucket does: it is in the bucket, and so is all that was.
pub record IsPushed (l : OsrfList ℕ) (x : ℕ) (l' : OsrfList ℕ) : Type 0 where
  pub valid : IsValid l'
  pub size : l'.size ≤ suc l.size
  pub added : (p : ℕ) × (get_index l' p ≡ some x)
  pub kept : (p i : ℕ) → get_index l p ≡ some i → get_index l' p ≡ some i

pub push_first-IsPushed :
    {l : OsrfList ℕ} (x : ℕ)
    → IsValid l
    → l.size ≤ max_position
    → IsPushed l x (push_first l (some x)).1.list
push_first-IsPushed {l} x v h =
    let (k, b, free, below, slots, count) = push_first_lem x v h in
    record {
      valid = push_first-IsValid (some x) v h;
      size = size-push_first x v h;
      added = (k, slots k ∙ ground arith);
      kept = λ p i g. elim (Bool-cases (k == p)) [
        | inl e ↦
            let z : get_index l p ≡ none = subst (λ q. get_index l q ≡ none) (ground arith) free in
            absurd (cc)
        | inr e ↦ slots p ∙ ground arith
      ];
    }

-- the pointer in a slot that is in use is replaced
pub write_bucket_lem :
    {t : OsrfList (OsrfList ℕ)} (b : ℕ) (l : OsrfList ℕ)
    → IsValid t
    → b < t.size
    → let t' = write_bucket t b l in
      IsValid t' × ((j : ℕ) → get_index t' j ≡ (if b == j then some l else get_index t j))
unfolding write_bucket
write_bucket_lem {t} b l v h =
    let w : IsValid (write_bucket t b l) = record {
      allocated = length-set t.arrlist b (some l) ∙ v.allocated;
      within = v.within;
      int_size = v.int_size;
      unused = λ j m.
          slot-set t.arrlist b j (some l) (omega (arith, v.within, v.allocated))
          ∙ ground (arith, v.unused j);
    } in
    (
      w,
      λ j.
          get_index-slot j w
          ∙ slot-set t.arrlist b j (some l) (omega (arith, v.within, v.allocated))
          ∙ ground (arith, get_index-slot j v),
    )

-- What filing a pointer under a bucket does to the table, where `n` bounds the bucket's count.
pub record IsFiled (t : OsrfList (OsrfList ℕ)) (b x n : ℕ) (t' : OsrfList (OsrfList ℕ))
    : Type 0 where
  pub valid : IsValid t'
  pub bucket : OsrfList ℕ
  pub there : get_index t' b ≡ some bucket
  pub bucket_valid : IsValid bucket
  pub bucket_size : bucket.size ≤ suc n
  pub added : (p : ℕ) × (get_index bucket p ≡ some x)
  pub others : (j : ℕ) → (b == j) ≡ false → get_index t' j ≡ get_index t j
  pub kept :
      (l : OsrfList ℕ) (p i : ℕ)
      → get_index t b ≡ some l
      → get_index l p ≡ some i
      → get_index bucket p ≡ some i

abbrev fresh : OsrfList ℕ
fresh = new_list

fresh-IsValid : IsValid fresh
unfolding new_list
fresh-IsValid = new_list_size-IsValid 48 (omega arith)

size-fresh : fresh.size ≡ 0
unfolding new_list new_list_size
size-fresh = refl

-- `n` bounds the buckets' counts
ensure_bucket-IsFiled :
    {t : OsrfList (OsrfList ℕ)} (b x n : ℕ) (o : Option (OsrfList ℕ))
    → IsValid t
    → get_index t b ≡ o
    → ((l : OsrfList ℕ) → o ≡ some l → IsValid l × (l.size ≤ n))
    → n ≤ max_position
    → b < 16
    → let (t1, l) = ensure_bucket t b o in
      let l' = (push_first l (some x)).1.list in IsFiled t b x n (write_bucket t1 b l')
unfolding ensure_bucket
ensure_bucket-IsFiled {t} b x n (some l) v g bounds small b_lt =
    let (w, c) = bounds l refl in
    let pu = push_first-IsPushed x w (omega arith) in
    let (tv, at) = write_bucket_lem b _ v (get_index_lt t b g) in
    record {
      valid = tv;
      bucket_size = omega (arith, pu.size);
      bucket = (push_first l (some x)).1.list;
      there = at b ∙ ground arith;
      bucket_valid = pu.valid;
      added = pu.added;
      others = λ j e. at j ∙ ground arith;
      kept = λ l' p i g' s. pu.kept p i (same l' p i g' s);
    }
  where
    same :
        (l' : OsrfList ℕ) (p i : ℕ)
        → get_index t b ≡ some l'
        → get_index l' p ≡ some i
        → get_index l p ≡ some i
    same l' p i g' s = cc
ensure_bucket-IsFiled {t} b x n none v g bounds small b_lt =
    let pu = push_first-IsPushed x fresh-IsValid (omega (arith, size-fresh)) in
    let s = size-set_item (some fresh) b v (omega arith) in
    let (tv, at) =
      write_bucket_lem b (push_first fresh (some x)).1.list
        (set_item-IsValid (some fresh) b v (omega arith)) (ground (arith, s)) in
    record {
      valid = tv;
      bucket_size = omega (arith, pu.size, size-fresh);
      bucket = (push_first fresh (some x)).1.list;
      there = at b ∙ ground arith;
      bucket_valid = pu.valid;
      added = pu.added;
      others = λ j e. at j ∙ ground (arith, get_index-set_item (some fresh) b j v (omega arith));
      kept = λ l' p i g' s. absurd (cc);
    }

pub push_node-IsFiled :
    {A : Type 0} {ns : List (Node A)} {t : OsrfList (OsrfList ℕ)} (key : Bytes)
    → IsBucketed ns t
    → length ns ≤ max_position
    → let (t1, l) = ensure_bucket t (make_key key) (get_index t (make_key key)) in
      IsFiled t
        (make_key key)
        (length ns)
        (length ns)
        (write_bucket t1 (make_key key) (push_first l (some (length ns))).1.list)
push_node-IsFiled {ns} {t} key v small =
    ensure_bucket-IsFiled (make_key key) (length ns) (length ns) (get_index t (make_key key))
      v.valid refl (λ l g. v.buckets (make_key key) l g) small (make_key_lt key)

-- A store with one more node, which is filed under the bucket of its key.
pub IsFiled-IsBucketed :
    {A : Type 0} {ns ns' : List (Node A)} {t t' : OsrfList (OsrfList ℕ)} (key : Bytes)
    → IsBucketed ns t
    → IsFiled t (make_key key) (length ns) (length ns) t'
    → length ns' ≡ suc (length ns)
    → ((i : ℕ) → (node_at ns' i).key ≡ (if length ns == i then some key else (node_at ns i).key))
    → IsBucketed ns' t'
IsFiled-IsBucketed {A} {ns} {ns'} {t} {t'} key v f c keys = record {
  valid = f.valid;
  buckets = λ j l g. buckets j l g;
  homed = λ i k a. elim (Bool-cases (length ns == i)) [
    | inl e ↦
        let same : key ≡ k = let z = keys i in ground arith in
        let (p, q) = f.added in
        (f.bucket, p, ap (λ z. get_index t' (make_key z)) (sym same) ∙ f.there, q ∙ ground arith)
    | inr e ↦ homed i k (let z = keys i in ground arith)
  ];
}
  where
    buckets : (j : ℕ) (l : OsrfList ℕ) → get_index t' j ≡ some l → IsValid l × (l.size ≤ length ns')
    buckets j l g = elim (Bool-cases (make_key key == j)) [
      | inl e ↦
          let same : f.bucket ≡ l =
            let d : make_key key ≡ j = ground arith in let z = f.there in cc in
          subst (λ z. IsValid z × (z.size ≤ length ns')) same
            (f.bucket_valid, omega (arith, f.bucket_size))
      | inr e ↦ let (w, b) = v.buckets j l (sym (f.others j e) ∙ g) in (w, omega arith)
    ]

    homed :
        (i : ℕ) (k : Bytes)
        → (node_at ns i).key ≡ some k
        → (l : OsrfList ℕ) × (p : ℕ) × (get_index t' (make_key k) ≡ some l)
          × (get_index l p ≡ some i)
    homed i k a =
        let (l, p, g, q) = v.homed i k a in
        elim (Bool-cases (make_key key == make_key k)) [
          | inl e ↦
              let d : make_key key ≡ make_key k = ground arith in
              (
                f.bucket,
                p,
                ap (get_index t') (sym d) ∙ f.there,
                f.kept l p i (ap (get_index t) d ∙ g) q,
              )
          | inr e ↦ (l, p, f.others (make_key k) e ∙ g, q)
        ]
