-- ===== src/TransportGroup.antt =====
-- src/libopensrf/osrf_transgroup.c: a group of transport clients, one for each domain.
-- A socket's number, which is not negative, stands for the connection of a node. What client_connect, client_send_message,
-- client_recv and select return are parameters. A domain does not have the character `%`.
pub mod Receive
pub mod Sending
mod Tests
use open_srf.Prelude.{
  ℕ, zero, suc, ◌+◌, ◌*◌, Bool, true, false, Option, none, some, List, [], ◌∷◌, ◌++◌, ltb, ◌==◌,
  if◌then◌else◌, is_some, length, take, same_bytes, Bytes,
}
use open_srf.OsrfHash.{OsrfHash, new_hash, hash_set, hash_get, find_item, write_at}
use open_srf.OsrfHash.Traversal.{iterator_next}
use open_srf.TransportMessage.{TransportMessage, jid_get_domain, jid_get_username, jid_get_resource}

-- `struct __osrfTransportGroupNode`, without the port and the time
pub record GroupNode : Type 0 where
  pub domain : Bytes
  pub username : Bytes
  pub password : Bytes
  pub resource : Bytes
  pub active : Bool
  pub sock_id : ℕ

-- `struct __osrfTransportGroup`
pub record TransportGroup : Type 0 where
  pub nodes : OsrfHash GroupNode
  pub itr : Option ℕ

unfoldable pub add_nodes : OsrfHash GroupNode → List GroupNode → OsrfHash GroupNode
add_nodes h [] = h
add_nodes h (node ∷ nodes) = add_nodes (hash_set h (some node) node.domain).hash nodes

-- `osrfNewTransportGroup`, of nodes that are not NULL
unfoldable pub new_group : List GroupNode → Option TransportGroup
unfolding add_nodes
new_group [] = none
new_group (node ∷ nodes) = some (record { nodes = add_nodes new_hash (node ∷ nodes); itr = none })

-- the loop of `osrfTransportGroupConnectAll`: the nodes, and how many are active; `connects` says
-- for which nodes client_connect succeeds.
unfoldable pub connect_from :
    (GroupNode → Bool) → ℕ → OsrfHash GroupNode → Option ℕ → ℕ → OsrfHash GroupNode × ℕ
connect_from connects zero h itr active = (h, active)
connect_from connects (suc n) h itr active =
    let r = iterator_next h itr in
    elim r.0 [
      | none ↦ (h, active)
      | some node ↦
          let connected =
            connect_from connects n (write_at h r.1 (record node { active = true })) r.1
              (active + 1) in
          let failed = connect_from connects n h r.1 active in
          if connects node then connected else failed
    ]

-- `osrfTransportGroupConnectAll`, with a round for each node of the store and one more
unfoldable pub connect_all : (GroupNode → Bool) → TransportGroup → TransportGroup × ℕ
unfolding connect_from
connect_all connects grp =
    let (h, active) = connect_from connects (length grp.nodes.nodes + 1) grp.nodes none 0 in
    (record { nodes = h; itr = none }, active)

-- the loop of `osrfTransportGroupDisconnectAll`
unfoldable pub disconnect_from : ℕ → OsrfHash GroupNode → Option ℕ → OsrfHash GroupNode
disconnect_from zero h itr = h
disconnect_from (suc n) h itr =
    let r = iterator_next h itr in
    elim r.0 [
      | none ↦ h
      | some node ↦ disconnect_from n (write_at h r.1 (record node { active = false })) r.1
    ]

-- `osrfTransportGroupDisconnectAll`
unfoldable pub disconnect_all : TransportGroup → TransportGroup
unfolding disconnect_from
disconnect_all grp = record {
  nodes = disconnect_from (length grp.nodes.nodes + 1) grp.nodes none;
  itr = none;
}

-- `osrfTransportGroupSendMatch` to a recipient: whether it returns 0; `sends` says for which nodes
-- client_send_message does.
unfoldable pub send_match : (GroupNode → Bool) → TransportGroup → Bytes → Bool
send_match sends grp recipient = elim (hash_get grp.nodes (jid_get_domain recipient 255)) [
  | none ↦ false
  | some node ↦ sends node
]

-- what the first loop of `osrfTransportGroupRecvAll` makes of `maxfd` at a node
unfoldable pub lower_fd : Option GroupNode → ℕ → ℕ
lower_fd none maxfd = maxfd
lower_fd (some node) maxfd =
    let fd = node.sock_id in if node.active then (if ltb fd maxfd then fd else maxfd) else maxfd

-- that loop: `maxfd` after it
unfoldable pub max_fd : ℕ → OsrfHash GroupNode → Option ℕ → ℕ → ℕ
unfolding lower_fd
max_fd zero h itr maxfd = maxfd
max_fd (suc n) h itr maxfd =
    let r = iterator_next h itr in
    let rest = max_fd n h r.1 (lower_fd r.0 maxfd) in if is_some r.0 then rest else maxfd

-- `__osrfTGWait`, whether it does not return 0; `ready` is whether select finds a socket.
unfoldable pub wait : ℕ → Bool → Bool
wait maxfd ready = if maxfd == 0 then false else ready

-- the second loop of `osrfTransportGroupRecvAll`; `is_set` says which sockets select has found, and
-- `recv` what client_recv reads from a socket.
unfoldable pub recv_from :
    (ℕ → Bool)
    → (ℕ → Option TransportMessage)
    → ℕ
    → OsrfHash GroupNode
    → Option ℕ
    → Option TransportMessage
recv_from is_set recv zero h itr = none
recv_from is_set recv (suc n) h itr =
    let r = iterator_next h itr in
    elim r.0 [
      | none ↦ none
      | some node ↦
          let rest = recv_from is_set recv n h r.1 in
          let set = if is_set node.sock_id then recv node.sock_id else rest in
          if node.active then set else rest
    ]

-- `osrfTransportGroupRecvAll`
unfoldable pub recv_all :
    Bool → (ℕ → Bool) → (ℕ → Option TransportMessage) → TransportGroup → Option TransportMessage
unfolding max_fd wait recv_from
recv_all ready is_set recv grp =
    let n = length grp.nodes.nodes + 1 in
    let received = recv_from is_set recv n grp.nodes none in
    if wait (max_fd n grp.nodes none 0) ready then received else none

-- `osrfTransportGroupRecv` for a domain; `none` where it reads through a NULL pointer
unfoldable pub recv :
    Bool → (ℕ → Option TransportMessage) → TransportGroup → Bytes → Option (Option TransportMessage)
unfolding wait
recv ready client_recv grp domain = elim (hash_get grp.nodes domain) [
  | none ↦ none
  | some node ↦ some (if wait node.sock_id ready then client_recv node.sock_id else none)
]

-- `osrfTransportGroupSetInactive`
unfoldable pub set_inactive : TransportGroup → Bytes → TransportGroup
set_inactive grp domain = elim (hash_get grp.nodes domain) [
  | none ↦ grp
  | some node ↦ record grp {
    nodes = write_at grp.nodes (find_item grp.nodes domain false) (record node { active = false });
  }
]

-- what `osrfTransportGroupSend` has done: whether it returns 0, where it leaves the iterator and the
-- message's recipient, and the domain and the recipient of every call of client_send_message
pub record Sent : Type 0 where
  pub accepted : Bool
  pub new_itr : Option ℕ
  pub recipient : Bytes
  pub tried : List (Bytes × Bytes)

-- the node of one round, and the iterator
unfoldable pub send_next : OsrfHash GroupNode → Option ℕ → Option GroupNode × Option ℕ
send_next h itr = let r = iterator_next h itr in iterator_next h (if is_some r.0 then r.1 else none)

-- `firstdomain` is set and is this domain
unfoldable pub is_first : Option Bytes → Bytes → Bool
is_first none domain = false
is_first (some firstdomain) domain = same_bytes firstdomain domain

unfoldable pub or_first : Option Bytes → Bytes → Option Bytes
or_first none domain = some domain
or_first (some firstdomain) domain = some firstdomain

-- the recipient as snprintf writes it to 1024 bytes
unfoldable pub readdress : (username domain resource : Bytes) → Bytes
readdress username domain resource = take 1023 (username ++ b'@' ∷ (domain ++ b'/' ∷ resource))

unfoldable pub add_try : Bytes × Bytes → Option Sent → Option Sent
add_try attempt none = none
add_try attempt (some s) = some (record s { tried = attempt ∷ s.tried })

-- the loop of `osrfTransportGroupSend`, with at most so many rounds
unfoldable pub send_from :
    (GroupNode → Bytes → Bool)
    → (username resource : Bytes) → (update_recip : Bool) → (fuel : ℕ) → OsrfHash GroupNode
    → (itr : Option ℕ) → (firstdomain : Option Bytes) → (recipient : Bytes) → Option Sent
unfolding send_next is_first or_first readdress add_try
send_from sends username resource update_recip zero h itr firstdomain recipient = none
send_from sends username resource update_recip (suc n) h itr firstdomain recipient =
    let next = send_next h itr in
    let given_up : Sent = record {
      accepted = false;
      new_itr = next.1;
      recipient = recipient;
      tried = [];
    } in
    elim next.0 [
      | none ↦ some given_up
      | some node ↦
          let newrcp =
            if update_recip then readdress username node.domain resource else recipient in
          let rest =
            send_from sends username resource update_recip n h next.1
              (or_first firstdomain node.domain) newrcp in
          let sent : Sent = record {
            accepted = true;
            new_itr = next.1;
            recipient = newrcp;
            tried = (node.domain, newrcp) ∷ [];
          } in
          let tried = if sends node newrcp then some sent else add_try (node.domain, newrcp) rest in
          if is_first firstdomain node.domain then some given_up else tried
    ]

-- `osrfTransportGroupSend`; `sends` says for which node and recipient client_send_message returns 0.
unfoldable pub send : (GroupNode → Bytes → Bool) → TransportGroup → Bytes → Option Sent
unfolding send_from
send sends grp recipient =
    let domain = jid_get_domain recipient 255 in
    let msgrecip = jid_get_username recipient [] 255 in
    let msgres = jid_get_resource recipient [] 255 in
    send_from sends msgrecip msgres (is_some (hash_get grp.nodes domain))
      (2 * length grp.nodes.nodes + 2) grp.nodes grp.itr none recipient
