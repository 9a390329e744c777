-- ===== src/TransportMessage/Parts.antt =====
-- `jid_get_username` and `jid_get_resource` of src/libopensrf/transport_message.c on Jabber IDs of
-- the usual forms.
use open_srf.Prelude.{
  ℕ, zero, suc, ◌+◌, ◌<◌, ◌≡◌, refl, sym, ap, ◌∙◌, true, none, some, [], ◌∷◌, ◌++◌, arith, ltb,
  ◌==◌, if◌then◌else◌, length, append-nil, take, Bytes,
}
use open_srf.TransportMessage.{at_mark, jid_get_username, after_slash, jid_get_resource}
use open_srf.TransportMessage.Domain.{lacks}

at_mark_lem :
    (user rest : Bytes) (i : ℕ)
    → lacks b'@' user ≡ true
    → at_mark (user ++ b'@' ∷ rest) i ≡ some (i + length user)
unfolding at_mark lacks
at_mark_lem [] rest i h = ap some (omega arith)
at_mark_lem (c ∷ user) rest i h =
    let t = at_mark_lem user rest (i + 1) (ground arith) in ground arith ∙ t ∙ ap some (omega arith)

at_mark-lacks : (s : Bytes) (i : ℕ) → lacks b'@' s ≡ true → at_mark s i ≡ none
unfolding at_mark lacks
at_mark-lacks [] i h = refl
at_mark-lacks (c ∷ s) i h = rw (at_mark-lacks s (i + 1) (ground arith)) (ground arith)

after_slash-lacks : (s : Bytes) → lacks b'/' s ≡ true → after_slash s ≡ none
unfolding after_slash lacks
after_slash-lacks [] h = refl
after_slash-lacks (c ∷ s) h = rw (after_slash-lacks s (ground arith)) (ground arith)

after_slash_lem :
    (s resource : Bytes)
    → lacks b'/' resource ≡ true
    → after_slash (s ++ b'/' ∷ resource) ≡ some resource
unfolding after_slash
after_slash_lem [] resource h = rw (after_slash-lacks resource h) refl
after_slash_lem (c ∷ s) resource h = rw (after_slash_lem s resource h) refl

-- at most `size` characters of the first ones
take_first :
    (size : ℕ) (s t : Bytes)
    → take (if ltb size (length s) then size else length s) (s ++ t) ≡ take size s
take_first zero [] t = refl
take_first (suc size) [] t = ap (λ k. take k t) {y = 0} (ground arith)
take_first zero (c ∷ s) t = ap (λ k. take k (c ∷ (s ++ t))) {y = 0} (ground arith)
take_first (suc size) (c ∷ s) t =
    ap (λ k. take k (c ∷ (s ++ t))) {y = suc (if ltb size (length s) then size else length s)}
      (ground arith)
    ∙ ap (λ z. c ∷ z) (take_first size s t)

-- With room for `size` characters, which is not 0: of `user@rest`, where the user has no `@`,
-- `jid_get_username` gives the first `size` characters of the user, and of `rest/resource`, where the
-- resource has no `/`, `jid_get_resource` gives those of the resource. Of a text without `@` or `/`
-- they give nothing.
pub jid_parts :
    (user rest resource buf : Bytes) (size : ℕ)
    → 0 < size
    → lacks b'@' user ≡ true
    → lacks b'/' resource ≡ true
    → (jid_get_username (user ++ b'@' ∷ rest) buf size ≡ take size user)
      × (jid_get_username user buf size ≡ [])
      × (jid_get_resource (rest ++ b'/' ∷ resource) buf size ≡ take size resource)
      × (jid_get_resource resource buf size ≡ [])
unfolding jid_get_username jid_get_resource
jid_parts user rest resource buf size l u r =
    let marked : at_mark (user ++ b'@' ∷ rest) 0 ≡ some (length user) =
      at_mark_lem user rest 0 u ∙ ap some (omega arith) in
    (
      rw marked (has_room buf _ l ∙ take_first size user (b'@' ∷ rest)),
      rw (at_mark-lacks user 0 u) (has_room buf [] l),
      rw (after_slash_lem rest resource r) (has_room buf _ l ∙ whole),
      rw (after_slash-lacks resource r) (has_room buf [] l),
    )
  where
    has_room : {n : ℕ} (a b : Bytes) → 0 < n → (if n == 0 then a else b) ≡ b
    has_room a b l = ground arith

    whole :
        take (if ltb size (length resource) then size else length resource) resource
        ≡ take size resource
    whole =
        ap (take (if ltb size (length resource) then size else length resource))
          (sym (append-nil resource))
        ∙ take_first size resource []
