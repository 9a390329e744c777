-- ===== src/OsrfHash/RemovalValid.antt =====
-- `osrfHashRemove` and `osrfHashExtract` of src/libopensrf/osrf_hash.c on the
-- representation invariant.
use open_srf.Prelude.{
  ℕ, suc, ◌≡◌, ◌≢◌, refl, ap, subst, ◌∙◌, inl, inr, true, false, Option, none, some, arith, ◌==◌,
  if◌then◌else◌, Bool-cases, length, Bytes,
}
use mathlib.Core.Path.{fun_ext}
use open_srf.OsrfHash.{OsrfHash, node_at}
use open_srf.OsrfHash.Deletion.{mark_deleted}
use open_srf.OsrfHash.Entries.{entries, erase, erase-first, length-entries}
use open_srf.OsrfHash.Find.{IsFirst-Finds}
use open_srf.OsrfHash.Links.{
  IsNext, IsPrev, without, behind, ahead, IsNext-without, IsPrev-without, IsNext-join, IsPrev-join,
  behind_unique, ahead_unique, first_unique, last_unique,
}
use open_srf.OsrfHash.Nodes.{is_at}
use open_srf.OsrfHash.Removal.{IsUnlinked}
use open_srf.OsrfHash.Valid.{live, IsKeyed, IsBucketed, IsHash, live_lem, live_lt, live-beyond}

module _ {A : Type 0} {h h' : OsrfHash A} {i : ℕ} {key : Bytes} (v : IsHash h)
    (e : (node_at h.nodes i).key ≡ some key) (u : IsUnlinked h i h') where
  alive : live h.nodes i ≡ true
  alive = live_lem h.nodes i e

  p : Option ℕ
  p = (node_at h.nodes i).prev

  n : Option ℕ
  n = (node_at h.nodes i).next

  before : IsPrev (live h.nodes) i p
  unfolding p
  before = v.linked.prevs i alive

  after : IsNext (live h.nodes) (suc i) n
  unfolding n
  after = v.linked.nexts i alive

  live-unlink : live h'.nodes ≡ without (live h.nodes) i
  live-unlink = fun_ext λ j. rw (u.key j) (ground arith)

  survivor : (j : ℕ) → live h'.nodes j ≡ true → (live h.nodes j ≡ true) × (i ≢ j)
  survivor j a = ground (arith, u.key j)

  nexts-join :
      (j : ℕ) (o : Option ℕ)
      → live h.nodes j ≡ true
      → p ≡ o
      → IsNext
          (without (live h.nodes) i)
          (suc j)
          (if is_at o j then n else (node_at h.nodes j).next)
  nexts-join j o a q = elim (Bool-cases (is_at o j)) [
    | inr d ↦ rw d (
        IsNext-without _ i (suc j) _ (v.linked.nexts j a) (λ z. absurd (
          other o q d (
            behind_unique _ i j p a (subst (IsNext (live h.nodes) (suc j)) z (v.linked.nexts j a))
              before))))
    | inl d ↦ rw d (
        subst (λ k. IsNext (without (live h.nodes) i) k n) (here o q d)
          (IsNext-join _ i p n before after))
  ]
    where
      other : (o : Option ℕ) → p ≡ o → is_at o j ≡ false → p ≢ some j
      other none q d z = cc
      other (some l) q d z = let y : l ≡ j = cc in ground arith

      here : (o : Option ℕ) → p ≡ o → is_at o j ≡ true → behind p ≡ suc j
      here none q d = absurd (cc)
      here (some l) q d = ap behind q ∙ ground arith

  pub nexts-unlink :
      (j : ℕ) → live h.nodes j ≡ true → IsNext (live h'.nodes) (suc j) (node_at h'.nodes j).next
  unfolding p n
  nexts-unlink j a = rw (live-unlink, u.next j) (nexts-join j p a refl)

  not_own : (o : Option ℕ) → IsNext (live h.nodes) (suc i) o → o ≢ some i
  not_own none b = cc
  not_own (some l) b = λ z. absurd (let y : l ≡ i = cc in omega (arith, b.1))

  -- what the node's own pointer forward leads to
  pub own-unlink : IsNext (live h'.nodes) (suc i) (node_at h.nodes i).next
  unfolding n
  own-unlink = rw live-unlink (IsNext-without _ i (suc i) n after (not_own n after))

  prevs-join :
      (j : ℕ) (o : Option ℕ)
      → live h.nodes j ≡ true
      → n ≡ o
      → IsPrev (without (live h.nodes) i) j (if is_at o j then p else (node_at h.nodes j).prev)
  prevs-join j o a q = elim (Bool-cases (is_at o j)) [
    | inr d ↦ rw d (
        IsPrev-without _ i j _ (v.linked.prevs j a) (λ z. absurd (
          other o q d (
            ahead_unique _ i j n a (subst (IsPrev (live h.nodes) j) z (v.linked.prevs j a))
              after))))
    | inl d ↦ rw d (
        subst (λ k. IsPrev (without (live h.nodes) i) k p) (here o q d)
          (IsPrev-join _ i (length h.nodes) p n (live_lt h.nodes i alive) before after
            (live-beyond h.nodes)))
  ]
    where
      other : (o : Option ℕ) → n ≡ o → is_at o j ≡ false → n ≢ some j
      other none q d z = cc
      other (some l) q d z = let y : l ≡ j = cc in ground arith

      here : (o : Option ℕ) → n ≡ o → is_at o j ≡ true → ahead (length h.nodes) n ≡ j
      here none q d = absurd (cc)
      here (some l) q d = ap (ahead (length h.nodes)) q ∙ ground arith

  prevs-unlink :
      (j : ℕ) → live h.nodes j ≡ true → IsPrev (live h'.nodes) j (node_at h'.nodes j).prev
  unfolding p n
  prevs-unlink j a = rw (live-unlink, u.prev j) (prevs-join j n a refl)

  from-join :
      (o : Option ℕ)
      → p ≡ o
      → IsNext (without (live h.nodes) i) 0 (elim o [ none ↦ n | some l ↦ h.first_key ])
  from-join none q =
      subst (λ k. IsNext (without (live h.nodes) i) k n) (ap behind q)
        (IsNext-join _ i p n before after)
  from-join (some l) q = IsNext-without _ i 0 _ v.linked.from (λ z.
      let y = first_unique _ i p (subst (IsNext (live h.nodes) 0) z v.linked.from) before in
      absurd (cc))

  from-unlink : IsNext (live h'.nodes) 0 h'.first_key
  unfolding p n
  from-unlink = rw (live-unlink, u.first) (from-join p refl)

  to-join :
      (o : Option ℕ)
      → n ≡ o
      → IsPrev
          (without (live h.nodes) i)
          (length h.nodes)
          (elim o [ none ↦ p | some l ↦ h.last_key ])
  to-join none q =
      subst (λ k. IsPrev (without (live h.nodes) i) k p) (ap (ahead (length h.nodes)) q)
        (IsPrev-join _ i (length h.nodes) p n (live_lt h.nodes i alive) before after
          (live-beyond h.nodes))
  to-join (some l) q = IsPrev-without _ i (length h.nodes) _ v.linked.to (λ z.
      let y =
        last_unique _ i (length h.nodes) n
          (subst (IsPrev (live h.nodes) (length h.nodes)) z v.linked.to) after
          (live-beyond h.nodes) in
      absurd (cc))

  to-unlink : IsPrev (live h'.nodes) (length h'.nodes) h'.last_key
  unfolding p n
  to-unlink = rw (live-unlink, u.last, u.same_length) (to-join n refl)

  key-survivor :
      (j : ℕ) {k : Bytes}
      → (node_at h'.nodes j).key ≡ some k
      → ((node_at h.nodes j).key ≡ some k) × ((node_at h'.nodes j).item ≡ (node_at h.nodes j).item)
  key-survivor j a = elim (Bool-cases (i == j)) [
    | inl d ↦ let z = u.key j in absurd (ground arith)
    | inr d ↦ (ground (arith, u.key j), ground (arith, u.item j))
  ]

  unlink-IsKeyed : IsKeyed h'.nodes
  unlink-IsKeyed = record {
    filled = λ j k a.
        let (b, same) = key-survivor j a in let (x, c) = v.keyed.filled j k b in (x, same ∙ c);
    cleared = λ j a. elim (Bool-cases (i == j)) [
      | inl d ↦ u.item j ∙ ground arith
      | inr d ↦
          let z = v.keyed.cleared j (let y = u.key j in ground arith) in u.item j ∙ ground arith
    ];
    distinct = λ j l k a b. v.keyed.distinct j l k (key-survivor j a).0 (key-survivor l b).0;
  }

  unlink-IsBucketed : IsBucketed h'.nodes h'.hash
  unlink-IsBucketed = rw u.same_hash record {
    valid = v.bucketed.valid;
    buckets = λ b l g. rw u.same_length (v.bucketed.buckets b l g);
    homed = λ j k a. v.bucketed.homed j k (key-survivor j a).0;
  }

  erased :
      (entries (mark_deleted h.nodes i) ≡ erase key (entries h.nodes))
      × (length (entries h.nodes) ≡ suc (length (entries (mark_deleted h.nodes i))))
  erased = let (x, c) = v.keyed.filled i key e in erase-first h.nodes (IsFirst-Finds i v.keyed e) c

  pub entries-unlink : entries h'.nodes ≡ erase key (entries h.nodes)
  entries-unlink = u.entries ∙ erased.0

  size-unlink : h'.size ≡ length (entries h'.nodes)
  size-unlink =
      let s = length-entries h.nodes in
      rw (u.size, u.entries) (ground (arith, erased.1, v.counted, v.small))

  pub unlink-IsHash : IsHash h'
  unlink-IsHash = record {
    linked = record {
      from = from-unlink;
      to = to-unlink;
      nexts = λ j a. let b = (survivor j a).0 in nexts-unlink j b;
      prevs = λ j a. let b = (survivor j a).0 in prevs-unlink j b;
    };
    keyed = unlink-IsKeyed;
    bucketed = unlink-IsBucketed;
    counted = size-unlink;
    small = omega (arith, u.same_length);
  }
