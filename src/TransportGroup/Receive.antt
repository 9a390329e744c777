-- ===== src/TransportGroup/Receive.antt =====
-- `osrfTransportGroupRecvAll` of src/libopensrf/osrf_transgroup.c.
use open_srf.Prelude.{
  ℕ, zero, suc, ◌≡◌, refl, ◌∙◌, ap, Bool, true, false, Option, none, some, arith, if◌then◌else◌,
  is_some, length, ◌+◌,
}
use open_srf.OsrfHash.{OsrfHash}
use open_srf.OsrfHash.Traversal.{iterator_next}
use open_srf.TransportMessage.{TransportMessage}
use open_srf.TransportGroup.{GroupNode, TransportGroup, lower_fd, max_fd, wait, recv_all}

-- No socket's number is below 0.
lower_fd_zero : (o : Option GroupNode) → lower_fd o 0 ≡ 0
unfolding lower_fd
lower_fd_zero none = refl
lower_fd_zero (some node) = ground arith

max_fd_zero : (n : ℕ) (h : OsrfHash GroupNode) (itr : Option ℕ) → max_fd n h itr 0 ≡ 0
unfolding max_fd
max_fd_zero zero h itr = refl
max_fd_zero (suc n) h itr =
    let r = iterator_next h itr in
    let rest : max_fd n h r.1 (lower_fd r.0 0) ≡ 0 =
      ap (max_fd n h r.1) (lower_fd_zero r.0) ∙ max_fd_zero n h r.1 in
    both (is_some r.0) _ rest
  where
    both : (b : Bool) (m : ℕ) → m ≡ 0 → (if b then m else 0) ≡ 0
    both true m e = e
    both false m e = refl

-- `osrfTransportGroupRecvAll` gives NULL for every group, whichever nodes are active, whatever select
-- finds, and whatever there is to read.
pub recv_all-none :
    (grp : TransportGroup) (ready : Bool) (is_set : ℕ → Bool) (recv : ℕ → Option TransportMessage)
    → recv_all ready is_set recv grp ≡ none
unfolding recv_all wait
recv_all-none grp ready is_set recv =
    rw (max_fd_zero (length grp.nodes.nodes + 1) grp.nodes none) refl
