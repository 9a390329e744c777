-- ===== src/TransportMessage/Domain.antt =====
-- `jid_get_domain` of src/libopensrf/transport_message.c on Jabber IDs of the usual forms.
use open_srf.Prelude.{
  ℕ, suc, ◌+◌, ◌-◌, ◌≤◌, ◌≡◌, refl, sym, ap, ◌∙◌, Bool, true, not, ◌&&◌, [], ◌∷◌, ◌++◌, arith, ltb,
  ◌==◌, if◌then◌else◌, length, append-nil, length-append, take, Bytes,
}
use open_srf.TransportMessage.{jid_marks, skip, jid_get_domain}

-- whether a text has no such byte
unfoldable pub lacks : ℕ → Bytes → Bool
lacks b [] = true
lacks b (c ∷ s) = not (c == b) && lacks b s

-- A text without `@` leaves the marks as they are before an `@` has come.
marks_user :
    (user rest : Bytes) (i index2 : ℕ)
    → lacks b'@' user ≡ true
    → jid_marks (user ++ b'@' ∷ rest) i 0 index2
      ≡ jid_marks rest (i + length user + 1) (i + length user + 1) index2
unfolding jid_marks lacks
marks_user [] rest i index2 h = ap (λ k. jid_marks rest k k index2) (omega arith)
marks_user (c ∷ user) rest i index2 h =
    let t = marks_user user rest (i + 1) index2 (ground arith) in
    ground arith ∙ t ∙ ap (λ k. jid_marks rest k k index2) (omega arith)

-- A text without `@` and `/` leaves the marks as they are.
marks_plain :
    (s rest : Bytes) (i index1 index2 : ℕ)
    → lacks b'@' s ≡ true
    → lacks b'/' s ≡ true
    → jid_marks (s ++ rest) i index1 index2 ≡ jid_marks rest (i + length s) index1 index2
unfolding jid_marks lacks
marks_plain [] rest i index1 index2 h h' = ap (λ k. jid_marks rest k index1 index2) (omega arith)
marks_plain (c ∷ s) rest i index1 index2 h h' =
    let t = marks_plain s rest (i + 1) index1 index2 (ground arith) (ground arith) in
    ground arith ∙ t ∙ ap (λ k. jid_marks rest k index1 index2) (omega arith)

skip-append : (s t : Bytes) (c : ℕ) → skip (suc (length s)) (s ++ c ∷ t) ≡ t
unfolding skip
skip-append [] t c = refl
skip-append (d ∷ s) t c = skip-append s t c

take-append : (s t : Bytes) → take (length s) (s ++ t) ≡ s
take-append [] t = refl
take-append (c ∷ s) t = ap (λ z. c ∷ z) (take-append s t)

-- what is copied between the marks
copied :
    (n size : ℕ) (domain tail s : Bytes)
    → skip (n + 1) s ≡ domain ++ tail
    → length domain ≤ size
    → (if ltb 0 (n + 1) && ltb (n + 1) (n + 1 + length domain)
        then take
            (if ltb size (n + 1 + length domain - (n + 1))
              then size
              else n + 1 + length domain - (n + 1))
            (skip (n + 1) s)
        else [])
      ≡ domain
copied n size [] tail s h l = ground arith
copied n size (c ∷ domain) tail s h l =
    let k = n + 1 + length (c ∷ domain) - (n + 1) in
    let e : (if ltb size k then size else k) ≡ length (c ∷ domain) = ground arith in
    ground arith
    ∙ ap (λ z. take z (skip (n + 1) s)) e
    ∙ ap (take (length (c ∷ domain))) h
    ∙ take-append (c ∷ domain) tail

marks_slash :
    (rest : Bytes) (i n : ℕ)
    → jid_marks (b'/' ∷ rest) i (n + 1) 0 ≡ jid_marks rest (i + 1) (n + 1) i
unfolding jid_marks
marks_slash rest i n = ground arith

-- the marks of one without
marks_bare :
    (user domain : Bytes)
    → lacks b'@' user ≡ true
    → lacks b'@' domain ≡ true
    → lacks b'/' domain ≡ true
    → jid_marks (user ++ b'@' ∷ domain) 0 0 0 ≡ (length user + 1, 0)
unfolding jid_marks
marks_bare user domain u d d' =
    let a = length user + 1 in
    marks_user user domain 0 0 u
    ∙ ap (λ k. jid_marks domain k k 0) (omega arith)
    ∙ ap (λ s. jid_marks s a a 0) (sym (append-nil domain))
    ∙ marks_plain domain [] a a 0 d d'

-- the marks of a Jabber ID with a resource
marks_full :
    (user domain resource : Bytes)
    → lacks b'@' user ≡ true
    → lacks b'@' domain ≡ true
    → lacks b'/' domain ≡ true
    → lacks b'@' resource ≡ true
    → lacks b'/' resource ≡ true
    → jid_marks (user ++ b'@' ∷ (domain ++ b'/' ∷ resource)) 0 0 0
      ≡ (length user + 1, length user + 1 + length domain)
unfolding jid_marks
marks_full user domain resource u d d' r r' =
    let a = length user + 1 in
    let b = a + length domain in
    marks_user user (domain ++ b'/' ∷ resource) 0 0 u
    ∙ ap (λ k. jid_marks (domain ++ b'/' ∷ resource) k k 0) (omega arith)
    ∙ marks_plain domain (b'/' ∷ resource) a a 0 d d'
    ∙ marks_slash resource b (length user)
    ∙ ap (λ s. jid_marks s (b + 1) a b) (sym (append-nil resource))
    ∙ marks_plain resource [] (b + 1) a b r r'

-- `jid_get_domain`, with room for the whole text, of `user@domain/resource` gives the domain, and of
-- `user@domain` nothing, where the user has no `@`, and the domain and the resource have neither `@`
-- nor `/`.
pub jid_get_domain_lem :
    (user domain resource : Bytes)
    → lacks b'@' user ≡ true
    → lacks b'@' domain ≡ true
    → lacks b'/' domain ≡ true
    → lacks b'@' resource ≡ true
    → lacks b'/' resource ≡ true
    → let full = user ++ b'@' ∷ (domain ++ b'/' ∷ resource) in
      let bare = user ++ b'@' ∷ domain in
      (jid_get_domain full (length full) ≡ domain) × (jid_get_domain bare (length bare) ≡ [])
unfolding jid_get_domain
jid_get_domain_lem user domain resource u d d' r r' = (
  rw (marks_full user domain resource u d d' r r') (
      copied (length user) (length full) domain (b'/' ∷ resource) full
        (ap (λ k. skip k full) {y = suc (length user)} (omega arith)
          ∙ skip-append user (domain ++ b'/' ∷ resource) b'@')
        (omega (
          arith,
          length-append user (b'@' ∷ (domain ++ b'/' ∷ resource)),
          length-append domain (b'/' ∷ resource),
        ))),
  rw (marks_bare user domain u d d') (ground arith),
)
  where
    full : Bytes
    full = user ++ b'@' ∷ (domain ++ b'/' ∷ resource)
