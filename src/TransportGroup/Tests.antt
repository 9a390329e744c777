-- ===== src/TransportGroup/Tests.antt =====
-- Runs of the definitions of src/libopensrf/osrf_transgroup.c.
use open_srf.Prelude.{◌≡◌, refl, true, false, none, some, [], ◌∷◌, arith, Bytes, same_bytes}
use open_srf.OsrfHash.{new_hash, hash_set, make_key, node_at, hash_get, is_key}
use open_srf.OsrfHash.Traversal.{hash_get_count, iterator_next}
use open_srf.OsrfList.{get_index}
use open_srf.TransportMessage.{message_init, jid_get_domain, jid_get_username, jid_get_resource}
use open_srf.TransportGroup.{GroupNode, TransportGroup, Sent, add_nodes, recv_all, send}
use open_srf.TransportGroup.Receive.{recv_all-none}
use open_srf.TransportGroup.Sending.{send-single}
use open_srf.OsrfHash.Put.{hash_set-IsPut}
use open_srf.OsrfHash.Reading.{new_hash-IsHash}
use open_srf.OsrfHash.Valid.{IsHash}

-- the domain "d", connected on socket 5
abbrev node : GroupNode
node = record {
  domain = b'd' ∷ [];
  username = [];
  password = [];
  resource = [];
  active = true;
  sock_id = 5;
}

abbrev group : TransportGroup
group = record { nodes = add_nodes new_hash (node ∷ []); itr = none }

recv_all-none_example :
    recv_all true (λ _. true) (λ _. some (message_init none none none none none)) group ≡ none
recv_all-none_example =
    recv_all-none group true (λ _. true) (λ _. some (message_init none none none none none))

group-IsHash : IsHash group.nodes
unfolding add_nodes new_hash
group-IsHash = (hash_set-IsPut node node.domain new_hash-IsHash.0 (omega arith)).0.valid

-- "a@d/e"
abbrev recipient : Bytes
recipient = b'a' ∷ b'@' ∷ b'd' ∷ b'/' ∷ b'e' ∷ []

abbrev given_up : Sent
given_up = record { accepted = false; new_itr = none; recipient = recipient; tried = [] }

send-single_example : send (λ n s. true) group recipient ≡ some given_up
unfolding add_nodes hash_get_count hash_set get_index new_hash make_key
send-single_example = send-single group (λ n s. true) recipient group-IsHash refl refl

-- With the iterator on the only node the message is sent.
send_test :
    send (λ n s. true) (record group { itr = some 0 }) recipient
    ≡ some (record {
      accepted = true;
      new_itr = some 0;
      recipient = recipient;
      tried = (node.domain, recipient) ∷ [];
    })
unfolding send add_nodes hash_set get_index new_hash make_key iterator_next node_at hash_get is_key
    same_bytes jid_get_domain jid_get_username jid_get_resource
send_test = refl
