-- ===== src/Router/Valid.antt =====
-- The invariant of src/router/osrf_router.c, and the operations on classes and nodes.
use open_srf.Prelude.{
  ℕ, suc, ◌≤◌, ◌<◌, ◌≡◌, refl, inl, inr, Option, none, some, List, [], ◌∷◌, arith, ◌==◌, Bool-cases,
  length, Bytes,
}
use open_srf.OsrfList.Valid.{max_position}
use open_srf.OsrfHash.{hash_get}
use open_srf.OsrfHash.Deletion.{hash_remove}
use open_srf.OsrfHash.Entries.{entries, put}
use open_srf.OsrfHash.Put.{hash_set-IsPut}
use open_srf.OsrfHash.Traversal.{hash_get_count}
use open_srf.Router.{
  RouterNode, RouterClass, Router, write_class, new_class, class_add_node, remove_class,
  remove_found_node, class_remove_node,
}
use open_srf.Router.Stored.{
  new_hash-Holds, Holds, Holds-get, Holds-remove, Holds-set, Holds-write, Holds-write_remove,
  Holds-weaken,
}

-- A node is stored under its own name.
abbrev pub IsNamed : Bytes × RouterNode → Type 0
IsNamed (id, node) = node.remote_id ≡ id

-- The nodes of a class, with room for `n` more; a class that is stored has a node and is connected
-- under its own name.
pub record IsClass (n : ℕ) (e : Bytes × RouterClass) : Type 0 where
  pub nodes : Holds IsNamed n e.1.nodes
  pub filled : 0 < e.1.nodes.size
  pub connected : e.1.connection ≡ e.0

-- The classes of a router, with room for `n` registrations more.
abbrev pub IsRouter : ℕ → Router → Type 0
IsRouter n r = Holds (IsClass n) n r.classes

pub IsClass-weaken : {n : ℕ} (m : ℕ) (e : Bytes × RouterClass) → m ≤ n → IsClass n e → IsClass m e
IsClass-weaken m e l v = record {
  nodes = Holds-weaken l (λ z p. p) v.nodes;
  filled = v.filled;
  connected = v.connected;
}

pub IsRouter-weaken : {n : ℕ} (m : ℕ) (r : Router) → m ≤ n → IsRouter n r → IsRouter m r
IsRouter-weaken m r l v = Holds-weaken l (λ e. IsClass-weaken m e l) v

length-put : {A : Type 0} (key : Bytes) (x : A) (es : List (Bytes × A)) → 0 < length (put key x es)
unfolding put
length-put key x [] = omega arith
length-put key x ((k, y) ∷ es) = ground (arith, length-put key x es)

-- a class with another node
pub class_add_node-IsClass :
    {n : ℕ} (c : RouterClass) (classname remote_id : Bytes)
    → Holds IsNamed (suc n) c.nodes
    → c.connection ≡ classname
    → IsClass n (classname, class_add_node c remote_id)
unfolding class_add_node
class_add_node-IsClass c classname remote_id v e =
    let node : RouterNode = record { remote_id = remote_id; count = 0; last_message = none } in
    let h = Holds-set remote_id node v refl in
    let r = (hash_set-IsPut node remote_id v.valid (omega (arith, v.room))).0 in
    record {
      nodes = h;
      filled = rw (h.valid.counted, r.entries) (length-put remote_id node (entries c.nodes.nodes));
      connected = e;
    }

pub write_class-IsRouter :
    {n : ℕ} (r : Router) (classname : Bytes) (c : RouterClass)
    → IsRouter n r
    → IsClass n (classname, c)
    → IsRouter n (write_class r classname c)
unfolding write_class
write_class-IsRouter r classname c v w = Holds-write classname c v w

-- `osrfRouterClassRemoveNode` keeps the classes valid: a class that loses its last node goes too.
pub class_remove_node-IsRouter :
    {n : ℕ} (r : Router) (classname remote_id : Bytes)
    → IsRouter n r
    → IsRouter n (class_remove_node r classname remote_id).0
unfolding class_remove_node remove_found_node remove_class hash_get_count
class_remove_node-IsRouter {n} r classname remote_id v = go _ refl
  where
    go :
        (o : Option RouterClass)
        → hash_get r.classes classname ≡ o
        → IsRouter n (remove_found_node r classname remote_id o).0
    go none e = v
    go (some c) e =
        let w = Holds-get classname v e in
        let c' : RouterClass = record c { nodes = (hash_remove c.nodes remote_id).hash } in
        elim (Bool-cases (c'.nodes.size == 0)) [
          | inl d ↦ rw d (unfold write_class in Holds-write_remove classname c' v e)
          | inr d ↦ rw d (
              write_class-IsRouter r classname c' v (record {
                nodes = Holds-remove remote_id w.nodes;
                filled = ground arith;
                connected = w.connected;
              }))
        ]

-- the class that `osrfRouterAddClass` makes, which has no node yet
pub new_class-Holds :
    {n : ℕ} (name domain classname : Bytes)
    → n ≤ max_position
    → Holds IsNamed n (new_class name domain classname).nodes
unfolding new_class
new_class-Holds name domain classname l = new_hash-Holds l
