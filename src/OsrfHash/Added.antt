-- ===== src/OsrfHash/Added.antt =====
-- `osrfHashSet` of src/libopensrf/osrf_hash.c under a new key, on the representation invariant.
use open_srf.Prelude.{
  ℕ, suc, ◌≤◌, ◌≡◌, ◌≢◌, refl, sym, subst, ◌∙◌, inl, inr, true, false, Option, none, some, [], ◌∷◌,
  arith, ◌==◌, if◌then◌else◌, Bool-cases, length, length-append, Bytes, is_some,
}
use mathlib.Core.Path.{fun_ext}
use open_srf.OsrfList.Valid.{max_position}
use open_srf.OsrfHash.{OsrfHash, node_at}
use open_srf.OsrfHash.Buckets.{IsFiled-IsBucketed}
use open_srf.OsrfHash.Entries.{entries, put, put-absent, length-entries}
use open_srf.OsrfHash.Links.{
  IsNext, IsPrev, with, IsNext-with, IsPrev-with, IsPrev-new, IsNext-new, last_alone,
}
use open_srf.OsrfHash.Nodes.{is_at}
use open_srf.OsrfHash.Valid.{live, IsKeyed, IsHash, live_lt, live-beyond}
use open_srf.OsrfHash.Insertion.{IsAdded}

module _ {A : Type 0} {h h' : OsrfHash A} {key : Bytes} {x : A} (v : IsHash h)
    (small : length h.nodes ≤ max_position) (absent : (i : ℕ) → (node_at h.nodes i).key ≢ some key)
    (u : IsAdded h key x h') where
  live-add : live h'.nodes ≡ with (live h.nodes) (length h.nodes)
  live-add = fun_ext λ j. rw (u.key j) (ground arith)

  beyond : (j : ℕ) → length h.nodes ≤ j → live h.nodes j ≡ false
  beyond = live-beyond h.nodes

  old : (j : ℕ) → live h'.nodes j ≡ true → (length h.nodes == j) ≡ false → live h.nodes j ≡ true
  old j a e = let z = u.key j in ground arith

  -- a pointer that is followed, of a node that is not the last
  next-some :
      (j : ℕ) (o l : Option ℕ)
      → live h.nodes j ≡ true
      → IsNext (live h.nodes) (suc j) o
      → IsPrev (live h.nodes) (length h.nodes) l
      → is_at l j ≡ false
      → is_some o ≡ true
  next-some j (some r) l a b c d = refl
  next-some j none none a b c d = let z = c j (live_lt h.nodes j a) in absurd (ground arith)
  next-some j none (some l) a b c d =
      let z = last_alone _ (length h.nodes) l j a (live_lt h.nodes j a) b c in absurd (ground arith)

  next-last :
      (j : ℕ) (l : Option ℕ)
      → IsPrev (live h.nodes) (length h.nodes) l
      → is_at l j ≡ true
      → IsNext (with (live h.nodes) (length h.nodes)) (suc j) (some (length h.nodes))
  next-last j none c d = absurd (ground arith)
  next-last j (some l) c d =
      subst (λ k. IsNext (with (live h.nodes) (length h.nodes)) (suc k) (some (length h.nodes)))
        (ground arith) (IsNext-new _ (length h.nodes) l c)

  nexts-add :
      (j : ℕ) → live h'.nodes j ≡ true → IsNext (live h'.nodes) (suc j) (node_at h'.nodes j).next
  nexts-add j a =
      rw (live-add, u.next j)
        (elim (Bool-cases (is_at h.last_key j)) [
          | inl d ↦ rw d (next-last j h.last_key v.linked.to d)
          | inr d ↦ rw d (elim (Bool-cases (length h.nodes == j)) [
            | inl e ↦ rw e (λ k m. let z = beyond k in ground arith)
            | inr e ↦
                let b = old j a e in
                let o = (node_at h.nodes j).next in
                let c = v.linked.nexts j b in
                rw e (
                  shown o (next-some j o h.last_key b c v.linked.to d)
                    (IsNext-with _ (length h.nodes) (suc j) o (live_lt h.nodes j b) beyond c))
          ])
        ])
    where
      shown :
          (o : Option ℕ)
          → is_some o ≡ true
          → IsNext
              (with (live h.nodes) (length h.nodes))
              (suc j)
              (if is_some o then o else some (length h.nodes))
          → IsNext (with (live h.nodes) (length h.nodes)) (suc j) o
      shown none d c = absurd (ground arith)
      shown (some r) d c = c

  prevs-add : (j : ℕ) → live h'.nodes j ≡ true → IsPrev (live h'.nodes) j (node_at h'.nodes j).prev
  prevs-add j a =
      rw (live-add, u.prev j)
        (elim (Bool-cases (length h.nodes == j)) [
          | inl e ↦ rw e (
              subst (λ k. IsPrev (with (live h.nodes) (length h.nodes)) k h.last_key) (ground arith)
                (IsPrev-with _ (length h.nodes) (length h.nodes) h.last_key (omega arith)
                  v.linked.to))
          | inr e ↦
              let b = old j a e in
              let l = live_lt h.nodes j b in
              rw e (IsPrev-with _ (length h.nodes) j _ (omega arith) (v.linked.prevs j b))
        ])

  add-IsKeyed : IsKeyed h'.nodes
  add-IsKeyed = record {
    filled = λ j k a. elim (Bool-cases (length h.nodes == j)) [
      | inl e ↦ (x, let z = u.item j in ground arith)
      | inr e ↦
          let (y, c) = v.keyed.filled j k (let z = u.key j in ground arith) in
          (y, let z = u.item j in ground arith)
    ];
    cleared = λ j a. elim (Bool-cases (length h.nodes == j)) [
      | inl e ↦ absurd (let z = u.key j in ground arith)
      | inr e ↦
          let z = v.keyed.cleared j (let y = u.key j in ground arith) in u.item j ∙ ground arith
    ];
    distinct = λ i j k a b. elim (Bool-cases (length h.nodes == i)) [
      | inl d ↦ elim (Bool-cases (length h.nodes == j)) [
        | inl e ↦ ground arith
        | inr e ↦ absurd (fresh_key i j k d e a b)
      ]
      | inr d ↦ elim (Bool-cases (length h.nodes == j)) [
        | inl e ↦ absurd (fresh_key j i k e d b a)
        | inr e ↦
            v.keyed.distinct i j k (let z = u.key i in ground arith)
              (let z = u.key j in ground arith)
      ]
    ];
  }
    where
      fresh_key :
          (i j : ℕ) (k : Bytes)
          → (length h.nodes == i) ≡ true
          → (length h.nodes == j) ≡ false
          → (node_at h'.nodes i).key ≡ some k
          → (node_at h'.nodes j).key ≢ some k
      fresh_key i j k d e a b =
          let y : some key ≡ some k = let z = u.key i in ground arith in
          absent j (let z = u.key j in ground arith)

  pub entries-add : entries h'.nodes ≡ put key x (entries h.nodes)
  entries-add = u.entries ∙ sym (put-absent h.nodes key x absent)

  pub add-IsHash : IsHash h'
  add-IsHash = record {
    linked = record {
      from =
          rw (live-add, u.first)
            (IsNext-with _ (length h.nodes) 0 h.first_key (omega arith) beyond v.linked.from);
      to = rw (live-add, u.longer, u.last) (IsPrev-new _ (length h.nodes));
      nexts = nexts-add;
      prevs = prevs-add;
    };
    keyed = add-IsKeyed;
    bucketed = IsFiled-IsBucketed key v.bucketed u.filed u.longer u.key;
    counted =
        rw (u.size, u.entries, v.counted, length-append (entries h.nodes) ((key, x) ∷ []))
          (let z = length-entries h.nodes in ground arith);
    small = omega (arith, u.longer);
  }
