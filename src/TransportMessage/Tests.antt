-- ===== src/TransportMessage/Tests.antt =====
-- Runs of the definitions of src/libopensrf/transport_message.c.
use open_srf.Prelude.{◌≡◌, refl, [], ◌∷◌, ◌++◌, length, Bytes}
use open_srf.TransportMessage.{jid_get_domain}
use open_srf.TransportMessage.Domain.{lacks, jid_get_domain_lem}

-- "ab", "c.d" and "e"
abbrev user : Bytes
user = b'a' ∷ b'b' ∷ []

abbrev domain : Bytes
domain = b'c' ∷ b'.' ∷ b'd' ∷ []

abbrev resource : Bytes
resource = b'e' ∷ []

-- A slash in the resource is taken for the one before it.
slash_test :
    jid_get_domain (user ++ b'@' ∷ (domain ++ b'/' ∷ (resource ++ b'/' ∷ resource))) 20
    ≡ domain ++ b'/' ∷ resource
unfolding jid_get_domain
slash_test = refl

jid_get_domain_lem_example :
    let full = user ++ b'@' ∷ (domain ++ b'/' ∷ resource) in
    let bare = user ++ b'@' ∷ domain in
    (jid_get_domain full (length full) ≡ domain) × (jid_get_domain bare (length bare) ≡ [])
unfolding lacks
jid_get_domain_lem_example = jid_get_domain_lem user domain resource refl refl refl refl refl
