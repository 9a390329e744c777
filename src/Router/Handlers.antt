-- ===== src/Router/Handlers.antt =====
-- src/router/osrf_router.c: bounced messages, commands, and the loops over what comes in.
use open_srf.Prelude.{
  Bool, false, Option, none, some, List, [], ◌∷◌, ◌++◌, ◌==◌, if◌then◌else◌, is_some, length, Bytes,
  same_bytes,
}
use open_srf.StringArray.{StringArray}
use open_srf.StringArray
use open_srf.OsrfHash.{hash_get}
use open_srf.OsrfHash.Traversal.{hash_get_count}
use open_srf.TransportMessage.{
  TransportMessage, message_init, message_set_router_info, message_set_osrf_xid, set_msg_error,
  is_text, jid_get_domain,
}
use open_srf.Router.{
  RouterNode, RouterClass, Router, Effect, Delivery, sent, write_class, add_class, class_add_node,
  class_remove_node, class_handle_message,
}

-- the message that tells the sender that the last node is lost
unfoldable pub cancel_message : TransportMessage → TransportMessage
cancel_message last =
    let error = message_init last.body last.subject last.thread last.router_from last.recipient in
    set_msg_error (message_set_osrf_xid error last.osrf_xid)
      (some (b'c' ∷ b'a' ∷ b'n' ∷ b'c' ∷ b'e' ∷ b'l' ∷ [])) 501

-- "Cloning lastMessage so next node can send it"
unfoldable pub clone_message : TransportMessage → TransportMessage
clone_message last =
    let clone = message_init last.body last.subject last.thread (some []) last.router_from in
    message_set_osrf_xid (message_set_router_info clone last.router_from none none none false)
      last.osrf_xid

unfoldable pub send_cancel : RouterClass → Option TransportMessage → List Effect
unfolding cancel_message
send_cancel c none = []
send_cancel c (some last) = sent c.connection (cancel_message last) ∷ []

unfoldable pub clone_last : Option TransportMessage → Option TransportMessage
unfolding clone_message
clone_last none = none
clone_last (some last) = some (clone_message last)

-- what `osrfRouterClassHandleBounce` leaves, the message it returns, and the effects
abbrev pub Bounce : Type 0
Bounce = Router × Option TransportMessage × List Effect

unfoldable pub bounce_node : Router → Bytes → RouterClass → Bytes → Option RouterNode → Bounce
unfolding send_cancel clone_last
bounce_node r classname c sender none = (r, none, [])
bounce_node r classname c sender (some node) =
    let (r', effects) = class_remove_node r classname sender in
    if hash_get_count c.nodes == 1
    then (r', none, send_cancel c node.last_message ++ effects)
    else (r', clone_last node.last_message, effects)

-- `osrfRouterClassHandleBounce` of a message from `sender`
unfoldable pub class_handle_bounce : Router → Bytes → RouterClass → Bytes → Bounce
unfolding bounce_node
class_handle_bounce r classname c sender =
    bounce_node r classname c sender (hash_get c.nodes sender)

-- `osrfRouterClassHandleMessage` on the class under a name, which is there
unfoldable pub route :
    Router → Bytes → Option RouterClass → TransportMessage → Delivery → Router × List Effect
route r classname none msg ok = (r, [])
route r classname (some c) msg ok =
    let (c', effects) = class_handle_message c msg ok in (write_class r classname c', effects)

-- what follows a bounce
unfoldable pub reroute : Bytes → Delivery → Bounce → Router × List Effect
unfolding route
reroute classname ok (r, none, effects) = (r, effects)
reroute classname ok (r, some msg, effects) =
    let (r', effects') = route r classname (hash_get r.classes classname) msg ok in
    (r', effects ++ effects')

-- whether the domain of a sender is in a list of trusted ones
unfoldable pub is_trusted : StringArray → Bytes → Bool
is_trusted domains sender = StringArray.contains domains (jid_get_domain sender (length sender))

-- one round of the loop of `osrfRouterClassHandleIncoming`, with the message's sender
unfoldable pub class_handle_one :
    Router → Bytes → RouterClass → TransportMessage → Delivery → Option Bytes → Router × List Effect
unfolding is_trusted reroute class_handle_bounce
class_handle_one r classname c msg ok none = (r, [])
class_handle_one r classname c msg ok (some sender) =
    let bounced = reroute classname ok (class_handle_bounce r classname c sender) in
    let routed = route r classname (some c) msg ok in
    if is_trusted r.trusted_clients sender
    then (if msg.is_error then bounced else routed)
    else (r, [])

-- `osrfRouterClassHandleIncoming`: the messages that come, until the class is gone
unfoldable pub class_handle_incoming :
    Router → Bytes → Option RouterClass → List (TransportMessage × Delivery) → Router × List Effect
unfolding class_handle_one
class_handle_incoming r classname c [] = (r, [])
class_handle_incoming r classname none (m ∷ ms) = (r, [])
class_handle_incoming r classname (some c) ((msg, ok) ∷ ms) =
    let (r', effects) = class_handle_one r classname c msg ok msg.sender in
    let (r'', effects') = class_handle_incoming r' classname (hash_get r'.classes classname) ms in
    (r'', effects ++ effects')

-- "Add the node to the osrfRouterClass's list, if it isn't already there"
unfoldable pub register_node : Router → Bytes → Bytes → Option RouterClass → Router
register_node r classname sender none = r
register_node r classname sender (some c) =
    if is_some (hash_get c.nodes sender)
    then r
    else write_class r classname (class_add_node c sender)

-- the command "register"
unfoldable pub register : Router → Bytes → Bytes → Bool → Router × List Effect
unfolding register_node
register r classname sender ok =
    let (r', effects) =
      if is_some (hash_get r.classes classname) then (r, []) else add_class r classname ok in
    (register_node r' classname sender (hash_get r'.classes classname), effects)

abbrev pub command_register : Bytes
command_register = b'r' ∷ b'e' ∷ b'g' ∷ b'i' ∷ b's' ∷ b't' ∷ b'e' ∷ b'r' ∷ []

abbrev pub command_unregister : Bytes
command_unregister = b'u' ∷ b'n' ∷ command_register

-- `osrfRouterHandleCommand` of a command from a sender to a class
unfoldable pub handle_command : Router → Bytes → Option Bytes → Bytes → Bool → Router × List Effect
unfolding register
handle_command r command none sender ok = (r, [])
handle_command r command (some classname) sender ok =
    let registered = register r classname sender ok in
    let unregistered = class_remove_node r classname sender in
    if same_bytes command command_register
    then registered
    else (if same_bytes command command_unregister
        then (if is_text (some classname) then unregistered else (r, []))
        else (r, []))

-- one round of the loop of `osrfRouterHandleIncoming`, with the message's sender and command. A message of a
-- trusted server without a command goes to `osrfRouterHandleAppRequest`, which has no result here.
unfoldable pub handle_one :
    Router → TransportMessage → Bool → Option Bytes → Option Bytes → Option (Router × List Effect)
unfolding is_trusted handle_command
handle_one r msg ok none command = some (r, [])
handle_one r msg ok (some sender) none =
    if is_trusted r.trusted_servers sender then none else some (r, [])
handle_one r msg ok (some sender) (some command) =
    let obeyed = handle_command r command msg.router_class sender ok in
    if is_trusted r.trusted_servers sender
    then (if is_text (some command) then some obeyed else none)
    else some (r, [])

abbrev pub with_effects :
    List Effect → Option (Router × List Effect) → Option (Router × List Effect)
with_effects effects none = none
with_effects effects (some (r, more)) = some (r, effects ++ more)

-- `osrfRouterHandleIncoming`, `none` where a request of an application comes
unfoldable pub handle_incoming :
    Router → List (TransportMessage × Bool) → Option (Router × List Effect)
unfolding handle_one
handle_incoming r [] = some (r, [])
handle_incoming r ((msg, ok) ∷ ms) = elim (handle_one r msg ok msg.sender msg.router_command) [
  | none ↦ none
  | some (r', effects) ↦ with_effects effects (handle_incoming r' ms)
]
