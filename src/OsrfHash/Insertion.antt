-- ===== src/OsrfHash/Insertion.antt =====
-- `osrfHashSet` of src/libopensrf/osrf_hash.c under a new key.
use open_srf.Prelude.{
  ℕ, zero, suc, ◌+◌, ◌%◌, ◌≤◌, ◌<◌, ◌≡◌, refl, sym, ap, subst, ◌∙◌, inl, inr, Option, none, some,
  List, [], ◌∷◌, ◌++◌, arith, ◌==◌, if◌then◌else◌, Bool-cases, length, length-append, length-set,
  Bytes, is_some,
}
use open_srf.OsrfList.{uint_mod}
use open_srf.OsrfList.Valid.{max_position}
use open_srf.OsrfHash.{
  Node, OsrfHash, node_at, set_next, set_prev, push_node, link_last, add_item, make_key,
}
use open_srf.OsrfHash.Buckets.{IsFiled, push_node-IsFiled}
use open_srf.OsrfHash.Entries.{entries, entries-set, entries-append}
use open_srf.OsrfHash.Links.{IsNext, IsPrev}
use open_srf.OsrfHash.Nodes.{is_at, field-set, field-set_same}
use open_srf.OsrfHash.Valid.{live, IsHash}

module _ {A : Type 0} where
  pub field-append :
      {B : Type 0} (f : Node A → B) (ns : List (Node A)) (j : ℕ) (n : Node A)
      → f (node_at (ns ++ n ∷ []) j) ≡ (if length ns == j then f n else f (node_at ns j))
  unfolding node_at
  field-append f [] zero n = refl
  field-append f [] (suc j) n = ground arith
  field-append f (m ∷ ns) zero n = ground arith
  field-append f (m ∷ ns) (suc j) n = field-append f ns j n ∙ ground arith

  -- What is left when node `x` of `h` becomes the last of its linked list.
  pub record IsLast (h : OsrfHash A) (x : ℕ) (f l : Option ℕ) (h' : OsrfHash A) : Type 0 where
    pub same_hash : h'.hash ≡ h.hash
    pub same_callback : h'.free_item ≡ h.free_item
    pub same_size : h'.size ≡ h.size
    pub same_length : length h'.nodes ≡ length h.nodes
    pub key : (j : ℕ) → (node_at h'.nodes j).key ≡ (node_at h.nodes j).key
    pub item : (j : ℕ) → (node_at h'.nodes j).item ≡ (node_at h.nodes j).item
    pub entries : entries h'.nodes ≡ entries h.nodes
    pub next :
        (j : ℕ)
        → (node_at h'.nodes j).next ≡ (if is_at l j then some x else (node_at h.nodes j).next)
    pub prev :
        (j : ℕ) → (node_at h'.nodes j).prev ≡ (if x == j then l else (node_at h.nodes j).prev)
    pub first : h'.first_key ≡ (if is_some f then h.first_key else some x)
    pub last : h'.last_key ≡ some x

  pub link_last-IsLast :
      (h : OsrfHash A) (x : ℕ) (first last : Option ℕ)
      → x < length h.nodes
      → (node_at h.nodes x).prev ≡ none
      → ((l : ℕ) → last ≡ some l → l < length h.nodes)
      → (first ≡ none → last ≡ none)
      → IsLast h x first last (link_last h x first last)
  unfolding link_last set_prev set_next
  link_last-IsLast h x none (some l) b c d e = absurd (let z = e refl in cc)
  link_last-IsLast h x none none b c d e = record {
    same_hash = refl;
    same_callback = refl;
    same_size = refl;
    same_length = refl;
    key = λ j. refl;
    item = λ j. refl;
    entries = refl;
    next = λ j. refl;
    prev = λ j. elim (Bool-cases (x == j)) [
      | inl e ↦ rw e (subst (λ k. (node_at h.nodes k).prev ≡ none) (ground arith) c)
      | inr e ↦ rw e refl
    ];
    first = refl;
    last = refl;
  }
  link_last-IsLast h x (some f) none b c d e = record {
    same_hash = refl;
    same_callback = refl;
    same_size = refl;
    same_length = length-set h.nodes x _;
    key = λ j. field-set_same (λ n. n.key) h.nodes x j _ refl;
    item = λ j. field-set_same (λ n. n.item) h.nodes x j _ refl;
    entries = entries-set h.nodes x _ refl refl;
    next = λ j. field-set_same (λ n. n.next) h.nodes x j _ refl;
    prev = λ j. field-set (λ n. n.prev) h.nodes x j _ b;
    first = refl;
    last = refl;
  }
  link_last-IsLast h x (some f) (some l) b c d e =
      let ns = set_prev h.nodes x (some l) in
      let same : length ns ≡ length h.nodes = length-set h.nodes x _ in
      record {
        same_hash = refl;
        same_callback = refl;
        same_size = refl;
        same_length = length-set ns l _ ∙ same;
        key = λ j.
            field-set_same (λ n. n.key) ns l j _ refl
            ∙ field-set_same (λ n. n.key) h.nodes x j _ refl;
        item = λ j.
            field-set_same (λ n. n.item) ns l j _ refl
            ∙ field-set_same (λ n. n.item) h.nodes x j _ refl;
        entries = entries-set ns l _ refl refl ∙ entries-set h.nodes x _ refl refl;
        next = λ j.
            field-set (λ n. n.next) ns l j _ (subst (λ k. l < k) (sym same) (d l refl))
            ∙ ap (λ z. if l == j then some x else z)
                (field-set_same (λ n. n.next) h.nodes x j _ refl);
        prev = λ j.
            field-set_same (λ n. n.prev) ns l j _ refl ∙ field-set (λ n. n.prev) h.nodes x j _ b;
        first = refl;
        last = refl;
      }

  -- What a new entry leaves.
  pub record IsAdded (h : OsrfHash A) (k : Bytes) (x : A) (h' : OsrfHash A) : Type 0 where
    pub filed : IsFiled h.hash (make_key k) (length h.nodes) (length h.nodes) h'.hash
    pub same_callback : h'.free_item ≡ h.free_item
    pub size : h'.size ≡ (h.size + 1) % uint_mod
    pub longer : length h'.nodes ≡ suc (length h.nodes)
    pub key :
        (j : ℕ)
        → (node_at h'.nodes j).key
          ≡ (if length h.nodes == j then some k else (node_at h.nodes j).key)
    pub item :
        (j : ℕ)
        → (node_at h'.nodes j).item
          ≡ (if length h.nodes == j then some x else (node_at h.nodes j).item)
    pub next :
        (j : ℕ)
        → (node_at h'.nodes j).next ≡ (
            if is_at h.last_key j
            then some (length h.nodes)
            else (if length h.nodes == j then none else (node_at h.nodes j).next))
    pub prev :
        (j : ℕ)
        → (node_at h'.nodes j).prev
          ≡ (if length h.nodes == j then h.last_key else (node_at h.nodes j).prev)
    pub first : h'.first_key ≡ (if is_some h.first_key then h.first_key else some (length h.nodes))
    pub last : h'.last_key ≡ some (length h.nodes)
    pub entries : entries h'.nodes ≡ entries h.nodes ++ (k, x) ∷ []

  last_lt :
      (h : OsrfHash A) (o : Option ℕ) (l n : ℕ) → IsPrev (live h.nodes) n o → o ≡ some l → l < n
  last_lt h none l n p e = absurd (cc)
  last_lt h (some l') l n p e = let d : l' ≡ l = cc in omega (arith, p.1)

  last_none :
      (h : OsrfHash A) (f l : Option ℕ) (n : ℕ)
      → IsNext (live h.nodes) 0 f
      → IsPrev (live h.nodes) n l
      → f ≡ none
      → l ≡ none
  last_none h f none n a b e = refl
  last_none h none (some l) n a b e =
      absurd (let z = a l (omega arith) in let y = b.0 in ground arith)
  last_none h (some f) (some l) n a b e = absurd (cc)

  pub add_item-IsAdded :
      {h : OsrfHash A} (k : Bytes) (x : A)
      → IsHash h
      → length h.nodes ≤ max_position
      → IsAdded h k x (add_item h k x)
  unfolding add_item push_node entries
  add_item-IsAdded {h} k x v small =
      let n = length h.nodes in
      let new : Node A = record { key = some k; item = some x; prev = none; next = none } in
      let pushed = record (push_node h k x) { size = (h.size + 1) % uint_mod } in
      let longer : length pushed.nodes ≡ suc n = length-append h.nodes (new ∷ []) ∙ omega arith in
      let r =
        link_last-IsLast pushed n h.first_key h.last_key (omega arith)
          (field-append (λ m. m.prev) h.nodes n new ∙ ground arith)
          (λ l e. omega (arith, last_lt h h.last_key l n v.linked.to e))
          (last_none h h.first_key h.last_key n v.linked.from v.linked.to) in
      record {
        filed = rw r.same_hash (push_node-IsFiled k v.bucketed small);
        same_callback = r.same_callback;
        size = r.same_size;
        longer = r.same_length ∙ longer;
        key = λ j. r.key j ∙ field-append (λ m. m.key) h.nodes j new;
        item = λ j. r.item j ∙ field-append (λ m. m.item) h.nodes j new;
        next = λ j.
            r.next j
            ∙ ap (λ z. if is_at h.last_key j then some n else z)
                (field-append (λ m. m.next) h.nodes j new);
        prev = λ j. r.prev j ∙ ground (arith, field-append (λ m. m.prev) h.nodes j new);
        first = r.first;
        last = r.last;
        entries = r.entries ∙ entries-append h.nodes (new ∷ []);
      }
