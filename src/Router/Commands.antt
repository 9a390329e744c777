-- ===== src/Router/Commands.antt =====
-- Commands to the router of src/router/osrf_router.c.
use open_srf.Prelude.{
  ℕ, suc, ◌+◌, ◌≤◌, ◌≡◌, refl, ap, ◌∙◌, inl, inr, Bool, true, false, not, ◌||◌, ◌++◌, Option, none,
  some, List, [], ◌∷◌, arith, if◌then◌else◌, Bool-cases, is_some, length, Bytes, same_bytes,
  same_bytes_lem,
}
use open_srf.OsrfHash.{set_callback, hash_set, hash_get}
use open_srf.OsrfHash.Entries.{lookup}
use open_srf.OsrfHash.Find.{hash_get-lookup}
use open_srf.OsrfHash.Reading.{new_hash-IsHash, set_callback-IsHash, hash_get-hash_set}
use open_srf.TransportMessage.{TransportMessage, is_text}
use open_srf.Router.{
  RouterClass, Router, Effect, write_class, new_class, add_class, class_add_node, class_remove_node,
}
use open_srf.Router.Handlers.{
  is_trusted, register_node, register, command_register, command_unregister, handle_command,
  handle_one, with_effects, handle_incoming,
}
use open_srf.Router.Stored.{Holds, Holds-get, Holds-set_write, Holds-weaken}
use open_srf.Router.Valid.{
  IsRouter, IsClass, IsClass-weaken, IsRouter-weaken, class_add_node-IsClass, write_class-IsRouter,
  class_remove_node-IsRouter, new_class-Holds,
}

-- a class with no node does not know the sender
new_class-lookup :
    (name domain classname sender : Bytes)
    → hash_get (new_class name domain classname).nodes sender ≡ none
unfolding new_class set_callback
new_class-lookup name domain classname sender =
    let (valid, empty) = new_hash-IsHash in
    hash_get-lookup sender (set_callback-IsHash valid) ∙ nothing _ empty
  where
    nothing : {A : Type 0} (es : List (Bytes × A)) → es ≡ [] → lookup sender es ≡ none
    nothing es e = unfold lookup in rw e

connection-new :
    (name domain classname : Bytes) → (new_class name domain classname).connection ≡ classname
unfolding new_class
connection-new name domain classname = refl

-- registering a node in a class that is there
register_known :
    {n : ℕ} (r : Router) (classname sender : Bytes) (o : Option RouterClass)
    → IsRouter (suc n) r
    → hash_get r.classes classname ≡ o
    → IsRouter n (register_node r classname sender o)
unfolding register_node
register_known {n} r classname sender none v e = IsRouter-weaken n r (omega arith) v
register_known {n} r classname sender (some c) v e =
    elim (Bool-cases (is_some (hash_get c.nodes sender))) [
      | inl d ↦ rw d (IsRouter-weaken n r (omega arith) v)
      | inr d ↦
          let w = Holds-get classname v e in
          rw d (
            write_class-IsRouter r classname (class_add_node c sender)
              (IsRouter-weaken n r (omega arith) v)
              (class_add_node-IsClass c classname sender w.nodes w.connected))
    ]

register_new :
    {n : ℕ} (r : Router) (classname sender : Bytes)
    → IsRouter (suc n) r
    → let r' = (add_class r classname true).0 in
      IsRouter n (register_node r' classname sender (hash_get r'.classes classname))
unfolding register_node add_class write_class
register_new {n} r classname sender v =
    let fresh = new_class r.name r.domain classname in
    let e : hash_get (hash_set r.classes (some fresh) classname).hash classname ≡ some fresh =
      hash_get-hash_set fresh classname classname v.valid (omega (arith, v.room))
      ∙ rw ((same_bytes_lem classname classname).1 refl) refl in
    let first = class_add_node fresh sender in
    let c =
      class_add_node-IsClass fresh classname sender
        (new_class-Holds r.name r.domain classname (omega (arith, v.room)))
        (connection-new r.name r.domain classname) in
    let v' : Holds (IsClass n) (suc n) r.classes =
      Holds-weaken le (λ z. IsClass-weaken n z le') v in
    rw (e, new_class-lookup r.name r.domain classname sender)
      (Holds-set_write classname fresh first v' c)
  where
    le : suc n ≤ suc n
    le = omega arith

    le' : n ≤ suc n
    le' = omega arith

-- Registration keeps the router valid and needs room for one node.
register-IsRouter :
    {n : ℕ} (r : Router) (classname sender : Bytes) (ok : Bool)
    → IsRouter (suc n) r
    → IsRouter n (register r classname sender ok).0
unfolding register add_class
register-IsRouter {n} r classname sender ok v = go (hash_get r.classes classname) refl ok
  where
    go :
        (o : Option RouterClass)
        → hash_get r.classes classname ≡ o
        → (ok : Bool)
        → IsRouter n (
            let out : Router × List Effect =
              if is_some o then (r, []) else add_class r classname ok in
            register_node out.0 classname sender (hash_get out.0.classes classname))
    go (some c) e ok = register_known r classname sender _ v refl
    go none e true = register_new r classname sender v
    go none e false = register_known r classname sender _ v refl

-- `osrfRouterHandleCommand`
handle_command-IsRouter :
    {n : ℕ} (r : Router) (command : Bytes) (classname : Option Bytes) (sender : Bytes) (ok : Bool)
    → IsRouter (suc n) r
    → IsRouter n (handle_command r command classname sender ok).0
unfolding handle_command
handle_command-IsRouter {n} r command none sender ok v = IsRouter-weaken n r (omega arith) v
handle_command-IsRouter {n} r command (some classname) sender ok v =
    go (same_bytes command command_register) (same_bytes command command_unregister)
      (is_text (some classname))
  where
    w : IsRouter n r
    w = IsRouter-weaken n r (omega arith) v

    go :
        (a b c : Bool)
        → IsRouter n
            (if a
              then register r classname sender ok
              else (if b
                  then (if c then class_remove_node r classname sender else (r, []))
                  else (r, []))).0
    go true b c = register-IsRouter r classname sender ok v
    go false true true = class_remove_node-IsRouter r classname sender w
    go false true false = w
    go false false c = w

-- a message without a sender, or with a command
abbrev pub is_command : TransportMessage → Bool
is_command msg = not (is_some msg.sender) || is_text msg.router_command

abbrev pub AreCommands : List (TransportMessage × Bool) → Type 0
AreCommands [] = Unit
AreCommands ((msg, ok) ∷ ms) = (is_command msg ≡ true) × AreCommands ms

-- a result whose router is valid
abbrev pub Leaves : ℕ → Option (Router × List Effect) → Type 0
Leaves n o = (r : Router) × (effects : List Effect) × (o ≡ some (r, effects)) × IsRouter n r

some-Leaves : {n : ℕ} (out : Router × List Effect) → IsRouter n out.0 → Leaves n (some out)
some-Leaves (r, effects) v = (r, effects, refl, v)

is_text-none : is_text none ≡ false
unfolding is_text
is_text-none = refl

handle_one-Leaves :
    {n : ℕ} (r : Router) (msg : TransportMessage) (ok : Bool) (sender command : Option Bytes)
    → (not (is_some sender) || is_text command) ≡ true
    → IsRouter (suc n) r
    → Leaves n (handle_one r msg ok sender command)
unfolding handle_one
handle_one-Leaves {n} r msg ok none command c v =
    some-Leaves (r, []) (IsRouter-weaken n r (omega arith) v)
handle_one-Leaves {n} r msg ok (some sender) none c v = absurd (let e = is_text-none in cc)
handle_one-Leaves {n} r msg ok (some sender) (some command) c v =
    rw c (go (is_trusted r.trusted_servers sender))
  where
    go :
        (a : Bool)
        → Leaves n
            (if a then some (handle_command r command msg.router_class sender ok) else some (r, []))
    go true = some-Leaves _ (handle_command-IsRouter r command msg.router_class sender ok v)
    go false = some-Leaves (r, []) (IsRouter-weaken n r (omega arith) v)

-- `osrfRouterHandleIncoming`, on messages that have a command or no sender, and whatever client_connect
-- returns for them, has a result and keeps a router valid that has room for as many registrations: every
-- class is connected under its own name and has at least one node, every node is stored under its own
-- name, and all the hashes are valid.
pub handle_incoming-IsRouter :
    {n : ℕ} (ms : List (TransportMessage × Bool)) (r : Router)
    → AreCommands ms
    → IsRouter (length ms + n) r
    → Leaves n (handle_incoming r ms)
unfolding handle_incoming
handle_incoming-IsRouter {n} [] r c v = some-Leaves (r, []) (IsRouter-weaken n r (omega arith) v)
handle_incoming-IsRouter {n} ((msg, ok) ∷ ms) r c v =
    let (r', effects, e, w) =
      handle_one-Leaves r msg ok msg.sender msg.router_command c.0
        (IsRouter-weaken _ r (omega arith) v) in
    let (r'', more, e', w') = handle_incoming-IsRouter {n = n} ms r' c.1 w in
    (r'', effects ++ more, rw (e, handle_incoming) (ap (with_effects effects) e'), w')
