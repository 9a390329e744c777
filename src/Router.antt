-- ===== src/Router.antt =====
-- src/router/osrf_router.c: the classes of servers, the nodes of a class, and the routing of messages.
-- A class is changed through its pointer: it is written back to the hash of classes. A connection is
-- named by the resource it logs on with, which is the class name. What the router does to
-- connections is a list of effects, with each message as it is handed to client_send_message. A message
-- comes with what the one call of client_connect or client_send_message that may follow it comes to. A
-- name does not have the character `%`.
pub mod Commands
pub mod Forward
pub mod Handlers
pub mod Incoming
pub mod RoundRobin
pub mod Stored
pub mod Valid
mod Tests
use open_srf.Prelude.{
  ℕ, ◌+◌, Bool, true, false, Option, none, some, List, [], ◌∷◌, ◌++◌, ◌==◌, if◌then◌else◌, is_some,
  Bytes,
}
use open_srf.StringArray.{StringArray}
use open_srf.OsrfHash.{
  write_at, OsrfHash, new_hash, set_callback, set_node_item, find_item, hash_set, hash_get,
}
use open_srf.OsrfHash.Deletion.{hash_remove}
use open_srf.OsrfHash.Traversal.{hash_get_count, iterator_next, iterator_reset}
use open_srf.TransportMessage.{
  TransportMessage, message_init, message_set_router_info, message_set_osrf_xid, set_msg_error,
}

-- `struct _osrfRouterNodeStruct`
pub record RouterNode : Type 0 where
  pub remote_id : Bytes
  pub count : ℕ
  pub last_message : Option TransportMessage

-- `struct _osrfRouterClassStruct`, without the pointer to the router, and the Jabber ID of its connection
pub record RouterClass : Type 0 where
  pub itr : Option ℕ
  pub nodes : OsrfHash RouterNode
  pub connection : Bytes
  pub xmpp_id : Bytes

-- `struct osrfRouterStruct`, as far as it changes or decides what the router does
pub record Router : Type 0 where
  pub domain : Bytes
  pub name : Bytes
  pub classes : OsrfHash RouterClass
  pub trusted_clients : StringArray
  pub trusted_servers : StringArray

-- `osrfNewRouter`
unfoldable pub new_router :
    (domain name : Bytes) → (trusted_clients trusted_servers : StringArray) → Router
new_router domain name clients servers = record {
  domain = domain;
  name = name;
  classes = set_callback new_hash;
  trusted_clients = clients;
  trusted_servers = servers;
}

-- what is done to the connection of a class
pub data Effect : Type 0 where
  sent : Bytes → TransportMessage → Effect
  disconnected : Bytes → Effect

-- `osrfRouterClassFree`, as the callback of the hash of classes
unfoldable pub class_free : List (Option Bytes × Option RouterClass) → List Effect
class_free [] = []
class_free ((classname, none) ∷ freed) = class_free freed
class_free ((classname, some c) ∷ freed) = disconnected c.connection ∷ class_free freed

unfoldable pub write_class : Router → Bytes → RouterClass → Router
unfolding write_at
write_class r classname c = record r {
  classes = write_at r.classes (find_item r.classes classname false) c;
}

-- the Jabber ID that client_connect gives to a connection
unfoldable pub jabber_id : (username host resource : Bytes) → Bytes
jabber_id username host resource = username ++ b'@' ∷ (host ++ b'/' ∷ resource)

-- the class that `osrfRouterAddClass` makes, for the name and the domain of the router
unfoldable pub new_class : (name domain : Bytes) → Bytes → RouterClass
unfolding jabber_id
new_class name domain classname = record {
  itr = none;
  nodes = set_callback new_hash;
  connection = classname;
  xmpp_id = jabber_id name domain classname;
}

-- `osrfRouterAddClass`; `ok` is what client_connect returns.
unfoldable pub add_class : Router → Bytes → Bool → Router × List Effect
unfolding new_class
add_class r classname ok =
    if ok
    then (
      record r {
        classes = (hash_set r.classes (some (new_class r.name r.domain classname)) classname).hash;
      },
      [],
    )
    else (r, disconnected classname ∷ [])

-- `osrfRouterClassAddNode`
unfoldable pub class_add_node : RouterClass → Bytes → RouterClass
class_add_node c remote_id =
    let node : RouterNode = record { remote_id = remote_id; count = 0; last_message = none } in
    record c { nodes = (hash_set c.nodes (some node) remote_id).hash }

-- `osrfRouterRemoveClass`
unfoldable pub remove_class : Router → Bytes → Router × List Effect
unfolding class_free
remove_class r classname =
    let out = hash_remove r.classes classname in
    (record r { classes = out.hash }, class_free out.freed)

-- `osrfRouterClassRemoveNode`, with the class that is found
unfoldable pub remove_found_node :
    Router → Bytes → Bytes → Option RouterClass → Router × List Effect
unfolding write_class remove_class
remove_found_node r classname remote_id none = (r, [])
remove_found_node r classname remote_id (some c) =
    let c' = record c { nodes = (hash_remove c.nodes remote_id).hash } in
    let r' = write_class r classname c' in
    if hash_get_count c'.nodes == 0 then remove_class r' classname else (r', [])

-- `osrfRouterClassRemoveNode`
unfoldable pub class_remove_node : Router → Bytes → Bytes → Router × List Effect
unfolding remove_found_node
class_remove_node r classname remote_id =
    remove_found_node r classname remote_id (hash_get r.classes classname)

-- the round robin of `osrfRouterClassHandleMessage`: the node and the iterator's position
unfoldable pub pick_node : OsrfHash RouterNode → Option ℕ → Option RouterNode × Option ℕ
pick_node nodes itr =
    let next = iterator_next nodes itr in
    let wrapped = iterator_next nodes (iterator_reset itr) in
    if is_some next.0 then next else wrapped

-- the message that is sent to a node
unfoldable pub forwarded : RouterNode → TransportMessage → TransportMessage
forwarded node msg =
    let new_msg = message_init msg.body msg.subject msg.thread (some node.remote_id) msg.sender in
    message_set_osrf_xid (message_set_router_info new_msg msg.sender none none none false)
      msg.osrf_xid

-- what client_send_message comes to: it returns 0; or -1 because the message could not be sent, or because
-- the client is in error, in which case it does not look at the message
pub data Delivery : Type 0 where
  delivered undelivered client_error : Delivery

unfoldable pub is_delivered : Delivery → Bool
is_delivered delivered = true
is_delivered undelivered = false
is_delivered client_error = false

-- what client_send_message makes of the message that it is given: it puts in its own Jabber ID as the sender.
unfoldable pub stamped : (xmpp_id : Bytes) → Delivery → TransportMessage → TransportMessage
stamped xmpp_id delivered msg = record msg { sender = some xmpp_id }
stamped xmpp_id undelivered msg = record msg { sender = some xmpp_id }
stamped xmpp_id client_error msg = msg

-- what follows the choice; the message that is handed to client_send_message stays the node's last one.
unfoldable pub send_to :
    RouterClass
    → TransportMessage
    → Delivery
    → Option RouterNode × Option ℕ
    → RouterClass × List Effect
unfolding forwarded write_at is_delivered stamped
send_to c msg ok (none, itr) = (record c { itr = itr }, [])
send_to c msg ok (some node, itr) =
    let new_msg = forwarded node msg in
    let count = if is_delivered ok then node.count + 1 else node.count in
    let last = stamped c.xmpp_id ok new_msg in
    let node' = record node { count = count; last_message = some last } in
    (record c { itr = itr; nodes = write_at c.nodes itr node' }, sent c.connection new_msg ∷ [])

-- `osrfRouterClassHandleMessage`
unfoldable pub class_handle_message :
    RouterClass → TransportMessage → Delivery → RouterClass × List Effect
unfolding pick_node send_to
class_handle_message c msg ok = send_to c msg ok (pick_node c.nodes c.itr)
