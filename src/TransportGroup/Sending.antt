-- ===== src/TransportGroup/Sending.antt =====
-- `osrfTransportGroupSend` of src/libopensrf/osrf_transgroup.c.
use open_srf.Prelude.{
  ℕ, zero, suc, ◌+◌, ◌*◌, ◌<◌, ◌≡◌, refl, ap, subst, ◌∙◌, Bool, false, Option, none, some, [],
  arith, length, Bytes,
}
use open_srf.OsrfHash.{OsrfHash, node_at, item_of}
use open_srf.OsrfHash.Entries.{entries}
use open_srf.OsrfHash.Links.{IsNext}
use open_srf.OsrfHash.Traversal.{hash_get_count, iterator_next}
use open_srf.OsrfHash.Valid.{live, IsHash}
use open_srf.OsrfHash.Walks.{drop, entries-next, entries_at_live, next_node}
use open_srf.TransportGroup.{GroupNode, TransportGroup, Sent, send_next, send_from, send}

module _ {A : Type 0} {h : OsrfHash A} (v : IsHash h) where
  -- A pointer behind which no entry lies is NULL.
  next-none :
      (k : ℕ) (o : Option ℕ)
      → IsNext (live h.nodes) k o
      → length (entries (drop k h.nodes)) ≡ 0
      → o ≡ none
  next-none k none p e = refl
  next-none k (some i) p e =
      let (key, x, a, a') = next_node i v.keyed p.0 in
      let here = entries-next h.nodes k (some i) p ∙ entries_at_live h.nodes i a a' in
      absurd (let z = ap length here in omega arith)

  -- From the start of a hash of one entry, two steps of the iterator lead beyond the end.
  single-end :
      hash_get_count h ≡ 1
      → (i : ℕ) × (x : A) × (iterator_next h none ≡ (some x, some i))
        × (iterator_next h (some i) ≡ (none, none))
  unfolding hash_get_count iterator_next item_of drop
  single-end c = from h.first_key refl
    where
      from :
          (o : Option ℕ)
          → h.first_key ≡ o
          → (i : ℕ) × (x : A) × (iterator_next h none ≡ (some x, some i))
            × (iterator_next h (some i) ≡ (none, none))
      from none e =
          let p : IsNext (live h.nodes) 0 none = subst (IsNext (live h.nodes) 0) e v.linked.from in
          let none_left = ap length (entries-next h.nodes 0 none p) in
          absurd (omega (arith, none_left, v.counted, c))
      from (some i) e =
          let p : IsNext (live h.nodes) 0 (some i) =
            subst (IsNext (live h.nodes) 0) e v.linked.from in
          let (key, x, a, a') = next_node i v.keyed p.0 in
          let here =
            ap length (entries-next h.nodes 0 (some i) p ∙ entries_at_live h.nodes i a a') in
          let last : (node_at h.nodes i).next ≡ none =
            next-none (suc i) (node_at h.nodes i).next (v.linked.nexts i p.0)
              (omega (arith, here, v.counted, c)) in
          (i, x, rw (e, a') refl, rw last refl)

-- A round whose second step finds no node is the last.
send_from-ended :
    (sends : GroupNode → Bytes → Bool) (username resource recipient : Bytes) (update_recip : Bool)
    (n : ℕ) (h : OsrfHash GroupNode) (itr : Option ℕ)
    → 0 < n
    → send_next h itr ≡ (none, none)
    → send_from sends username resource update_recip n h itr none recipient
      ≡ some (record { accepted = false; new_itr = none; recipient = recipient; tried = [] })
unfolding send_from
send_from-ended sends username resource recipient update_recip zero h itr l e =
    absurd (omega (arith, l))
send_from-ended sends username resource recipient update_recip (suc n) h itr l e =
    rw (e, send_from) (ap (λ i. some (given_up i)) (ap (λ r. r.1) e))
  where
    given_up : Option ℕ → Sent
    given_up i = record { accepted = false; new_itr = i; recipient = recipient; tried = [] }

-- Of a valid group of one node whose iterator is at the start, `osrfTransportGroupSend` returns -1, calls
-- client_send_message for no node, changes neither the recipient nor the position of the iterator, and
-- so does so again at the next call.
pub send-single :
    (grp : TransportGroup) (sends : GroupNode → Bytes → Bool) (recipient : Bytes)
    → IsHash grp.nodes
    → hash_get_count grp.nodes ≡ 1
    → grp.itr ≡ none
    → send sends grp recipient
      ≡ some (record { accepted = false; new_itr = grp.itr; recipient = recipient; tried = [] })
unfolding send send_next
send-single grp sends recipient v c e =
    let (i, x, first, next) = single-end v c in
    let ended : send_next grp.nodes none ≡ (none, none) = rw (first, next) refl in
    rw e (
      send_from-ended sends _ _ recipient _ (2 * length grp.nodes.nodes + 2) grp.nodes none
        (omega arith) ended)
