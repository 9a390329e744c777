-- ===== src/Router/Forward.antt =====
-- `osrfRouterClassHandleMessage` of src/router/osrf_router.c.
use open_srf.Prelude.{
  ℕ, ◌+◌, ◌<◌, ◌≡◌, refl, sym, ap, ◌∙◌, inl, inr, true, Option, none, some, List, [], ◌∷◌, arith,
  if◌then◌else◌, Bool-cases, is_some, length, Bytes, same_bytes,
}
use open_srf.OsrfHash.{OsrfHash, Node, node_at, hash_get, item_of}
use open_srf.OsrfHash.Entries.{entries, lookup, lookup-first}
use open_srf.OsrfHash.Find.{hash_get-lookup, IsFirst-Finds}
use open_srf.OsrfHash.Links.{IsNext}
use open_srf.OsrfHash.Put.{entries-update}
use open_srf.OsrfHash.Reading.{lookup-put}
use open_srf.OsrfHash.Traversal.{iterator_next, iterator_reset}
use open_srf.OsrfHash.Valid.{live, IsHash}
use open_srf.OsrfHash.Walks.{drop, next_node, entries-next}
use open_srf.TransportMessage.{
  TransportMessage, message_init, message_set_router_info, message_set_osrf_xid,
}
use open_srf.Router.{
  RouterNode, RouterClass, Effect, Delivery, is_delivered, stamped, sent, pick_node, forwarded,
  send_to, class_handle_message,
}
use open_srf.Router.Stored.{Holds-get, Holds-write_at}
use open_srf.Router.Valid.{IsClass}

-- the node after a message is sent to it
abbrev pub sent_node : RouterClass → RouterNode → TransportMessage → Delivery → RouterNode
sent_node c node msg ok = record node {
  count = if is_delivered ok then node.count + 1 else node.count;
  last_message = some (stamped c.xmpp_id ok (forwarded node msg));
}

-- what the iterator gives is an item and where it is
next_item :
    (h : OsrfHash RouterNode) (itr : Option ℕ)
    → (o : Option ℕ) × (iterator_next h itr ≡ (item_of h.nodes o, o))
unfolding iterator_next
next_item h none = (h.first_key, refl)
next_item h (some i) = ((node_at h.nodes i).next, refl)

from_start :
    (h : OsrfHash RouterNode) → iterator_next h none ≡ (item_of h.nodes h.first_key, h.first_key)
unfolding iterator_next
from_start h = refl

-- from its start it gives an item, if there is one
first_item :
    {h : OsrfHash RouterNode} → IsHash h → 0 < h.size → is_some (item_of h.nodes h.first_key) ≡ true
unfolding item_of drop
first_item {h} v l = go h.first_key v.linked.from
  where
    go : (o : Option ℕ) → IsNext (live h.nodes) 0 o → is_some (item_of h.nodes o) ≡ true
    go none f =
        absurd (let e = ap length (entries-next h.nodes 0 none f) in omega (arith, e, v.counted, l))
    go (some i) f = let (k, x, e, e') = next_node i v.keyed f.0 in rw e' refl

-- where an item is
placed :
    (ns : List (Node RouterNode)) (o : Option ℕ)
    → is_some (item_of ns o) ≡ true
    → (i : ℕ) × (node : RouterNode) × ((node_at ns i).item ≡ some node)
      × ◌≡◌ {A = Option RouterNode × Option ℕ} (item_of ns o, o) (some node, some i)
unfolding item_of
placed ns none e = absurd (ground arith)
placed ns (some i) e = go _ refl
  where
    go :
        (x : Option RouterNode)
        → (node_at ns i).item ≡ x
        → (j : ℕ) × (node : RouterNode) × ((node_at ns j).item ≡ some node)
          × ◌≡◌ {A = Option RouterNode × Option ℕ} ((node_at ns i).item, some i) (some node, some j)
    go none q = absurd (let z = e in ground arith)
    go (some node) q = (i, node, q, ap (λ x. (x, some i)) q)

picked :
    {h : OsrfHash RouterNode} (itr : Option ℕ)
    → IsHash h
    → 0 < h.size
    → (i : ℕ) × (node : RouterNode) × ((node_at h.nodes i).item ≡ some node)
      × (pick_node h itr ≡ (some node, some i))
unfolding pick_node iterator_reset
picked {h} itr v l =
    let (o, q) = next_item h itr in
    elim (Bool-cases (is_some (item_of h.nodes o))) [
      | inl d ↦ let (i, node, e, p) = placed h.nodes o d in (i, node, e, rw (q, d) p)
      | inr d ↦
          let (i, node, e, p) = placed h.nodes h.first_key (first_item v l) in
          (i, node, e, rw (q, d) (from_start h ∙ p))
    ]

-- an item that is there has a key
keyed :
    {h : OsrfHash RouterNode} (i : ℕ) {node : RouterNode}
    → IsHash h
    → (node_at h.nodes i).item ≡ some node
    → (id : Bytes) × ((node_at h.nodes i).key ≡ some id)
keyed {h} i v e = go _ refl
  where
    go :
        (o : Option Bytes)
        → (node_at h.nodes i).key ≡ o
        → (id : Bytes) × ((node_at h.nodes i).key ≡ some id)
    go (some id) f = (id, f)
    go none f = absurd (let z = v.keyed.cleared i f in cc)

-- What `osrfRouterClassHandleMessage` does in a class that has a node.
pub record IsForwarded (c : RouterClass) (msg : TransportMessage) (ok : Delivery)
    (r : RouterClass × List Effect) : Type 0 where
  pub id : Bytes
  pub node : RouterNode
  pub registered : hash_get c.nodes id ≡ some node
  pub effects : r.1 ≡ sent c.connection (forwarded node msg) ∷ []
  pub addressed : (forwarded node msg).recipient ≡ some id
  pub remembered :
      (q : Bytes)
      → hash_get r.0.nodes q
        ≡ (if same_bytes id q then some (sent_node c node msg ok) else hash_get c.nodes q)

-- `osrfRouterClassHandleMessage` in a valid class that has a node leaves such a class. It hands one
-- message to client_send_message, addressed to a registered node; for that node it counts the message if
-- it could be sent and keeps it as the last one, whose sender is then the Jabber ID of the class's
-- connection unless that is in error; and every other node is as before.
pub class_handle_message-IsForwarded :
    {n : ℕ} {classname : Bytes} (c : RouterClass) (msg : TransportMessage) (ok : Delivery)
    → IsClass n (classname, c)
    → let r = class_handle_message c msg ok in IsClass n (classname, r.0) × IsForwarded c msg ok r
unfolding class_handle_message send_to forwarded message_set_osrf_xid message_set_router_info
    message_init
class_handle_message-IsForwarded {n} {classname} c msg ok v =
    let (i, node, e, p) = picked c.itr v.nodes.valid v.filled in
    let (id, k) = keyed i v.nodes.valid e in
    let there : lookup id (entries c.nodes.nodes) ≡ some node =
      lookup-first c.nodes.nodes (IsFirst-Finds i v.nodes.valid.keyed k) e in
    let found = hash_get-lookup id v.nodes.valid ∙ there in
    let named : node.remote_id ≡ id = Holds-get id v.nodes found in
    let w = Holds-write_at i id (sent_node c node msg ok) v.nodes k named in
    rw p (
      record { nodes = w; filled = v.filled; connected = v.connected },
      record {
        id = id;
        node = node;
        registered = found;
        effects = refl;
        addressed = ap some named;
        remembered = λ q.
            hash_get-lookup q w.valid
            ∙ ap (lookup q) (entries-update i (sent_node c node msg ok) v.nodes.valid k)
            ∙ lookup-put id q (sent_node c node msg ok) (entries c.nodes.nodes)
            ∙ ap (λ o. if same_bytes id q then some (sent_node c node msg ok) else o)
                (sym (hash_get-lookup q v.nodes.valid));
      },
    )
