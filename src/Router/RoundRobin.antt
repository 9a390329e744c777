-- ===== src/Router/RoundRobin.antt =====
-- The order in which `osrfRouterClassHandleMessage` of src/router/osrf_router.c picks the nodes.
use open_srf.Prelude.{
  ℕ, suc, ◌≤◌, ◌<◌, ◌≡◌, refl, ap, subst, ◌∙◌, true, Option, none, some, List, [], ◌∷◌, ◌++◌, map,
  arith, length, take, Bytes,
}
use open_srf.OsrfHash.{OsrfHash, node_at, item_of, hash_get}
use open_srf.OsrfHash.Find.{hash_get-lookup, IsFirst-Finds}
use open_srf.OsrfHash.Entries.{entries, lookup-first}
use open_srf.OsrfHash.Links.{IsNext, behind}
use open_srf.OsrfHash.Parked.{entries-drop}
use open_srf.OsrfHash.Put.{
  updated, key-update, item-update, next-update, length-update, live-update,
}
use open_srf.OsrfHash.Traversal.{iterator_next}
use open_srf.OsrfHash.Valid.{live, live_lt}
use open_srf.OsrfHash.Walks.{drop, next_node, entries-next, entries_at_live, IsParked}
use open_srf.TransportMessage.{
  TransportMessage, message_init, message_set_router_info, message_set_osrf_xid,
}
use open_srf.Router.{
  RouterNode, RouterClass, Effect, Delivery, sent, disconnected, pick_node, forwarded, send_to,
  class_handle_message,
}
use open_srf.Router.Forward.{sent_node, class_handle_message-IsForwarded}
use open_srf.Router.Stored.{Holds-get}
use open_srf.Router.Valid.{IsClass}

-- to whom the messages among some effects are addressed
unfoldable pub recipients : List Effect → List (Option Bytes)
recipients [] = []
recipients (sent connection msg ∷ effects) = msg.recipient ∷ recipients effects
recipients (disconnected connection ∷ effects) = recipients effects

-- several messages to one class, with the effects
unfoldable pub handle_messages : RouterClass → List (TransportMessage × Delivery) → List Effect
handle_messages c [] = []
handle_messages c ((msg, ok) ∷ ms) =
    let (c', effects) = class_handle_message c msg ok in effects ++ handle_messages c' ms

-- the names of the nodes behind a position
abbrev pub names_behind : RouterClass → Option ℕ → List (Option Bytes)
names_behind c itr = map (λ e. some e.0) (entries (drop (behind itr) c.nodes.nodes))

module _ {n : ℕ} {classname : Bytes} (c : RouterClass) (v : IsClass n (classname, c))
    (msg : TransportMessage) (ok : Delivery) where
  -- what the choice of node `i` leaves
  after : ℕ → RouterNode → RouterClass
  after i node = record c { itr = some i; nodes = updated c.nodes i (sent_node c node msg ok) }

  chosen_next :
      (i : ℕ) (node : RouterNode)
      → iterator_next c.nodes c.itr ≡ (some node, some i)
      → class_handle_message c msg ok ≡ (after i node, sent c.connection (forwarded node msg) ∷ [])
  unfolding class_handle_message pick_node after send_to forwarded
  chosen_next i node e = rw e refl

  names-after :
      (i : ℕ) (node : RouterNode)
      → i < length c.nodes.nodes
      → names_behind (after i node) (some i) ≡ names_behind c (some i)
  unfolding after
  names-after i node l = ap (map (λ e. some e.0)) (
      entries-drop (updated c.nodes i (sent_node c node msg ok)).nodes c.nodes.nodes (suc i)
        (length-update c.nodes i _) (λ j m. key-update c.nodes i _ j)
        (λ j m. item-update c.nodes i _ j l ∙ ground arith))

  after-IsParked :
      (i : ℕ) (node : RouterNode)
      → live c.nodes.nodes i ≡ true
      → IsParked (after i node).nodes (some i)
  unfolding after IsParked
  after-IsParked i node a =
      let x = sent_node c node msg ok in
      rw (live-update c.nodes i x, next-update c.nodes i x i) (v.nodes.valid.linked.nexts i a)

  after-IsClass :
      (i : ℕ) (node : RouterNode)
      → iterator_next c.nodes c.itr ≡ (some node, some i)
      → IsClass n (classname, after i node)
  after-IsClass i node e =
      subst (λ z. IsClass n (classname, z)) (ap (λ z. z.0) (chosen_next i node e))
        (class_handle_message-IsForwarded c msg ok v).0

-- where the iterator goes from such a position
next_parked :
    (h : OsrfHash RouterNode) (itr : Option ℕ)
    → IsParked h itr
    → (o : Option ℕ) × IsNext (live h.nodes) (behind itr) o
      × (iterator_next h itr ≡ (item_of h.nodes o, o))
unfolding IsParked iterator_next
next_parked h none p = (h.first_key, p, refl)
next_parked h (some i) p = ((node_at h.nodes i).next, p, refl)

-- messages to the nodes behind the iterator, each in its turn
InOrder : ℕ → Bytes → List (TransportMessage × Delivery) → RouterClass → Type 0
InOrder n classname ms c =
    IsClass n (classname, c)
    → IsParked c.nodes c.itr
    → length ms ≤ length (names_behind c c.itr)
    → recipients (handle_messages c ms) ≡ take (length ms) (names_behind c c.itr)

to_node :
    (node : RouterNode) (msg : TransportMessage)
    → (forwarded node msg).recipient ≡ some node.remote_id
unfolding forwarded message_init message_set_router_info message_set_osrf_xid
to_node node msg = refl

registered :
    {n : ℕ} {classname : Bytes} (c : RouterClass) (v : IsClass n (classname, c)) (i : ℕ)
    {id : Bytes} {node : RouterNode}
    → (node_at c.nodes.nodes i).key ≡ some id
    → (node_at c.nodes.nodes i).item ≡ some node
    → hash_get c.nodes id ≡ some node
registered c v i {id} k x =
    hash_get-lookup id v.nodes.valid
    ∙ lookup-first c.nodes.nodes (IsFirst-Finds i v.nodes.valid.keyed k) x

at_item :
    (h : OsrfHash RouterNode) (i : ℕ) {node : RouterNode}
    → (node_at h.nodes i).item ≡ some node
    → ◌≡◌ {A = Option RouterNode × Option ℕ} (item_of h.nodes (some i), some i) (some node, some i)
unfolding item_of
at_item h i e = ap (λ z. (z, some i)) e

InOrder-step :
    (n : ℕ) (classname : Bytes) (msg : TransportMessage) (ok : Delivery)
    (ms : List (TransportMessage × Delivery)) (c : RouterClass) (o : Option ℕ)
    → ((c' : RouterClass) → InOrder n classname ms c')
    → IsNext (live c.nodes.nodes) (behind c.itr) o
    → iterator_next c.nodes c.itr ≡ (item_of c.nodes.nodes o, o)
    → InOrder n classname ((msg, ok) ∷ ms) c
unfolding InOrder recipients handle_messages after
InOrder-step n classname msg ok ms c none rec q e v p l = absurd (
    omega (
      arith,
      ap (λ z. length (map (λ e. some e.0) z)) (entries-next c.nodes.nodes (behind c.itr) none q),
    ))
InOrder-step n classname msg ok ms c (some i) rec q e v p l =
    let (id, node, k, x) = next_node i v.nodes.valid.keyed q.0 in
    let picked : iterator_next c.nodes c.itr ≡ (some node, some i) = e ∙ at_item c.nodes i x in
    let here : names_behind c c.itr ≡ some id ∷ names_behind c (some i) = ap (map (λ e. some e.0)) (
      entries-next c.nodes.nodes (behind c.itr) (some i) q ∙ entries_at_live c.nodes.nodes i k x) in
    let same = names-after c v msg ok i node (live_lt c.nodes.nodes i q.0) in
    let rest =
      rec (after c v msg ok i node) (after-IsClass c v msg ok i node picked)
        (after-IsParked c v msg ok i node q.0) (omega (arith, ap length here, ap length same)) in
    let named : node.remote_id ≡ id = Holds-get id v.nodes (registered c v i k x) in
    rw (chosen_next c v msg ok i node picked, here)
      (ap (λ z. z ∷ recipients (handle_messages (after c v msg ok i node) ms))
          (to_node node msg ∙ ap some named)
        ∙ ap (λ z. some id ∷ z) (rest ∙ ap (take (length ms)) same))

-- In a valid class whose iterator's next step leads to the next node behind it, messages go to the
-- nodes behind it one after the other, as long as there are any: the recipients are their names in
-- the order of the registrations, each once.
pub handle_messages-names :
    {n : ℕ} {classname : Bytes} (ms : List (TransportMessage × Delivery)) (c : RouterClass)
    → IsClass n (classname, c)
    → IsParked c.nodes c.itr
    → length ms ≤ length (names_behind c c.itr)
    → recipients (handle_messages c ms) ≡ take (length ms) (names_behind c c.itr)
unfolding recipients handle_messages InOrder
handle_messages-names [] c v p l = refl
handle_messages-names {n} {classname} ((msg, ok) ∷ ms) c v p l =
    let (o, q, e) = next_parked c.nodes c.itr p in
    InOrder-step n classname msg ok ms c o (λ c' v' p' l'. handle_messages-names ms c' v' p' l') q e
      v p l
