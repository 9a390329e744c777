-- ===== src/Router/Tests.antt =====
-- Runs of the definitions of src/router/osrf_router.c.
use open_srf.Prelude.{
  ◌≡◌, refl, Bool, true, false, none, some, List, [], ◌∷◌, arith, Bytes, ap, take, length,
  same_bytes,
}
use open_srf.StringArray
use open_srf.StringArray.{StringArray}
use open_srf.OsrfList.{get_index, set_item, push_first, new_list}
use open_srf.OsrfHash.{hash_get, hash_set, new_hash, set_callback, make_key, is_key, node_at}
use open_srf.OsrfHash.Entries.{entries}
use open_srf.OsrfHash.Walks.{drop, IsParked}
use open_srf.Router.RoundRobin.{recipients, handle_messages, names_behind, handle_messages-names}
use open_srf.TransportMessage.{TransportMessage, is_text, message_init, message_set_router_info}
use open_srf.Router.{
  RouterClass, Router, delivered, client_error, new_router, new_class, class_add_node,
  class_handle_message,
}
use open_srf.Router.Commands.{AreCommands, Leaves, handle_incoming-IsRouter}
use open_srf.Router.Forward.{IsForwarded, class_handle_message-IsForwarded}
use open_srf.Router.Handlers.{command_register, handle_incoming, class_handle_incoming}
use open_srf.Router.Incoming.{class_handle_incoming-IsRouter}
use open_srf.Router.Stored.{new_hash-Holds}
use open_srf.Router.Valid.{IsRouter, IsClass, class_add_node-IsClass, new_class-Holds}

-- the domain "d", the class "c", and the servers "x@d/r" and "y@d/r"
abbrev domain : Bytes
domain = b'd' ∷ []

abbrev class_name : Bytes
class_name = b'c' ∷ []

abbrev x_server : Bytes
x_server = b'x' ∷ b'@' ∷ b'd' ∷ b'/' ∷ b'r' ∷ []

abbrev y_server : Bytes
y_server = b'y' ∷ b'@' ∷ b'd' ∷ b'/' ∷ b'r' ∷ []

abbrev trusted : StringArray
trusted = StringArray.add (StringArray.new_string_array 4) domain

abbrev empty_router : Router
empty_router = new_router domain (b'n' ∷ []) trusted trusted

abbrev registration : Bytes → TransportMessage
registration server =
    message_set_router_info (message_init none none none none (some server)) none none
      (some class_name) (some command_register) false

abbrev registrations : List (TransportMessage × Bool)
registrations = (registration x_server, true) ∷ (registration y_server, true) ∷ []

empty_router-IsRouter : IsRouter 10 empty_router
unfolding new_router
empty_router-IsRouter = new_hash-Holds (omega arith)

registrations-AreCommands : AreCommands registrations
unfolding is_text message_set_router_info message_init
registrations-AreCommands = (refl, (refl, tt))

handle_incoming-IsRouter_example : Leaves 8 (handle_incoming empty_router registrations)
handle_incoming-IsRouter_example =
    handle_incoming-IsRouter {n = 8} registrations empty_router registrations-AreCommands
      empty_router-IsRouter

-- what is left
registered : Leaves 8 (handle_incoming empty_router registrations)
registered =
    handle_incoming-IsRouter {n = 8} registrations empty_router registrations-AreCommands
      empty_router-IsRouter

-- from "z@d/r", and that the message to "x@d/r" bounced
abbrev request : TransportMessage
request = message_init none none none none (some (b'z' ∷ b'@' ∷ b'd' ∷ b'/' ∷ b'r' ∷ []))

abbrev bounced : TransportMessage
bounced = record (message_init none none none none (some x_server)) { is_error = true }

abbrev router : Router
router = registered.0

router-IsRouter : IsRouter 8 router
router-IsRouter = registered.3

class_handle_incoming-IsRouter_example :
    IsRouter 8
      (class_handle_incoming router class_name
        (hash_get router.classes class_name)
        ((request, delivered) ∷ (bounced, delivered) ∷ [])).0
class_handle_incoming-IsRouter_example =
    class_handle_incoming-IsRouter ((request, delivered) ∷ (bounced, delivered) ∷ []) router
      class_name router-IsRouter

abbrev class : RouterClass
class = class_add_node (new_class (b'n' ∷ []) domain class_name) x_server

connection_test : (new_class (b'n' ∷ []) domain class_name).connection ≡ class_name
unfolding new_class
connection_test = refl

class-IsClass : IsClass 8 (class_name, class)
class-IsClass =
    class_add_node-IsClass (new_class (b'n' ∷ []) domain class_name) class_name x_server
      (new_class-Holds (b'n' ∷ []) domain class_name (omega arith)) connection_test

class_handle_message-IsForwarded_example :
    let r = class_handle_message class request delivered in
    IsClass 8 (class_name, r.0) × IsForwarded class request delivered r
class_handle_message-IsForwarded_example =
    class_handle_message-IsForwarded class request delivered class-IsClass

abbrev two_nodes : RouterClass
two_nodes = class_add_node class y_server

-- the class with both servers
two_nodes-IsClass : IsClass 7 (class_name, two_nodes)
unfolding class_add_node
two_nodes-IsClass =
    class_add_node-IsClass class class_name y_server class-IsClass.nodes class-IsClass.connected

names_test : names_behind two_nodes two_nodes.itr ≡ some x_server ∷ some y_server ∷ []
unfolding class_add_node new_class hash_set new_hash set_callback entries get_index make_key
    set_item node_at drop is_key same_bytes push_first new_list
names_test = refl

at_start : IsParked two_nodes.nodes two_nodes.itr
unfolding IsParked class_add_node new_class
at_start = two_nodes-IsClass.nodes.valid.linked.from

handle_messages-names_example :
    recipients (handle_messages two_nodes ((request, delivered) ∷ (request, client_error) ∷ []))
    ≡ take 2 (names_behind two_nodes two_nodes.itr)
handle_messages-names_example =
    handle_messages-names ((request, delivered) ∷ (request, client_error) ∷ []) two_nodes
      two_nodes-IsClass at_start (omega (arith, ap length names_test))
