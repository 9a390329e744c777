-- ===== src/Router/Incoming.antt =====
-- Messages that come for a class of src/router/osrf_router.c, bounced ones included.
use open_srf.Prelude.{
  ℕ, ◌≡◌, refl, Bool, true, false, Option, none, some, List, [], ◌∷◌, if◌then◌else◌, ◌==◌, Bytes,
}
use open_srf.OsrfHash.{hash_get}
use open_srf.OsrfHash.Traversal.{hash_get_count}
use open_srf.TransportMessage.{TransportMessage}
use open_srf.Router.{RouterNode, RouterClass, Router, Effect, Delivery, class_remove_node}
use open_srf.Router.Forward.{class_handle_message-IsForwarded}
use open_srf.Router.Handlers.{
  Bounce, bounce_node, class_handle_bounce, route, reroute, is_trusted, class_handle_one,
  class_handle_incoming,
}
use open_srf.Router.Stored.{Holds-get}
use open_srf.Router.Valid.{IsRouter, IsClass, write_class-IsRouter, class_remove_node-IsRouter}

-- what is known of a class that was looked up
Known : ℕ → Bytes → Option RouterClass → Type 0
Known n classname none = Unit
Known n classname (some c) = IsClass n (classname, c)

module _ {n : ℕ} where
  known :
      (r : Router) (classname : Bytes)
      → IsRouter n r
      → Known n classname (hash_get r.classes classname)
  known r classname v = go _ refl
    where
      go : (o : Option RouterClass) → hash_get r.classes classname ≡ o → Known n classname o
      go none e = unfold Known in tt
      go (some c) e = unfold Known in Holds-get classname v e

  route-IsRouter :
      (r : Router) (classname : Bytes) (o : Option RouterClass) (msg : TransportMessage)
      (ok : Delivery)
      → IsRouter n r
      → Known n classname o
      → IsRouter n (route r classname o msg ok).0
  unfolding route Known
  route-IsRouter r classname none msg ok v k = v
  route-IsRouter r classname (some c) msg ok v k =
      write_class-IsRouter r classname _ v (class_handle_message-IsForwarded c msg ok k).0

  bounce-IsRouter :
      (r : Router) (classname : Bytes) (c : RouterClass) (sender : Bytes)
      → IsRouter n r
      → IsRouter n (class_handle_bounce r classname c sender).0
  unfolding class_handle_bounce bounce_node
  bounce-IsRouter r classname c sender v = go (hash_get c.nodes sender)
    where
      counted :
          (b : Bool) (x y : Option TransportMessage) (xs ys : List Effect)
          → (if◌then◌else◌ {A = Bounce} b
              ((class_remove_node r classname sender).0, x, xs)
              ((class_remove_node r classname sender).0, y, ys)).0
            ≡ (class_remove_node r classname sender).0
      counted true x y xs ys = refl
      counted false x y xs ys = refl

      go : (o : Option RouterNode) → IsRouter n (bounce_node r classname c sender o).0
      go none = v
      go (some node) =
          rw (counted (hash_get_count c.nodes == 1) _ _ _ _)
            (class_remove_node-IsRouter r classname sender v)

  reroute-IsRouter :
      (classname : Bytes) (ok : Delivery) (b : Bounce)
      → IsRouter n b.0
      → IsRouter n (reroute classname ok b).0
  unfolding reroute
  reroute-IsRouter classname ok (r, none, effects) v = v
  reroute-IsRouter classname ok (r, some msg, effects) v =
      route-IsRouter r classname (hash_get r.classes classname) msg ok v (known r classname v)

  class_handle_one-IsRouter :
      (r : Router) (classname : Bytes) (c : RouterClass) (msg : TransportMessage) (ok : Delivery)
      (sender : Option Bytes)
      → IsRouter n r
      → IsClass n (classname, c)
      → IsRouter n (class_handle_one r classname c msg ok sender).0
  unfolding class_handle_one
  class_handle_one-IsRouter r classname c msg ok none v k = v
  class_handle_one-IsRouter r classname c msg ok (some sender) v k =
      go (is_trusted r.trusted_clients sender) msg.is_error
    where
      go :
          (a b : Bool)
          → IsRouter n
              (if a
                then (if b
                    then reroute classname ok (class_handle_bounce r classname c sender)
                    else route r classname (some c) msg ok)
                else (r, [])).0
      go true true =
          reroute-IsRouter classname ok (class_handle_bounce r classname c sender)
            (bounce-IsRouter r classname c sender v)
      go true false = route-IsRouter r classname (some c) msg ok v (unfold Known in k)
      go false b = v

  incoming :
      (ms : List (TransportMessage × Delivery)) (r : Router) (classname : Bytes)
      (o : Option RouterClass)
      → IsRouter n r
      → Known n classname o
      → IsRouter n (class_handle_incoming r classname o ms).0
  unfolding class_handle_incoming Known
  incoming [] r classname o v k = v
  incoming (m ∷ ms) r classname none v k = v
  incoming ((msg, ok) ∷ ms) r classname (some c) v k =
      let r' = (class_handle_one r classname c msg ok msg.sender).0 in
      let w = class_handle_one-IsRouter r classname c msg ok msg.sender v k in
      incoming ms r' classname (hash_get r'.classes classname) w (known r' classname w)

  -- `osrfRouterClassHandleIncoming` for the class under a name, on any messages, bounced or not, and
  -- whatever client_send_message returns for them, keeps a valid router valid: every class that is
  -- left is connected under its own name and has at least one node, every node is stored under its
  -- own name, and all the hashes are valid.
  pub class_handle_incoming-IsRouter :
      (ms : List (TransportMessage × Delivery)) (r : Router) (classname : Bytes)
      → IsRouter n r
      → IsRouter n (class_handle_incoming r classname (hash_get r.classes classname) ms).0
  class_handle_incoming-IsRouter ms r classname v =
      incoming ms r classname (hash_get r.classes classname) v (known r classname v)
