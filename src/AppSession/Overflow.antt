-- ===== src/AppSession/Overflow.antt =====
-- A response in parts of a server that are together too long for the growing buffer, in
-- src/libopensrf/osrf_app_session.c.
use open_srf.Prelude.{
  ℕ, ◌+◌, ◌<◌, ◌≤◌, ◌≡◌, refl, sym, ap, ◌∙◌, inl, inr, Option, none, some, List, [], ◌∷◌, ◌++◌,
  arith, length, length-append, Bytes, lt_or_ge,
}
use open_srf.GrowingBuffer.{buffer_max_size}
use open_srf.GrowingBuffer.Growth.{buffer_add_lem}
use open_srf.JsonObject.{JsonObject}
use open_srf.OsrfMessage.{OsrfMessage}
use open_srf.AppSession.{AppRequest, PartialBuffer, no_buffer, buffer, freed}
use open_srf.AppSession.Collected.{push-final}
use open_srf.AppSession.Queue.{
  ready_buffer, add_partial, added, keep_buffer, push_partial, push_collected, request_push_queue,
}
use open_srf.AppSession.Responses.{
  Holds, none_yet, so_far, and_then, push_all, ready-Holds, partial_message_fields, push-partial,
  push_message, push_all-cons,
}
use open_srf.AppSession.Serving.{partial_message, final_message}

Holds-lt : (text : Bytes) (b : PartialBuffer) → Holds text b → length text < buffer_max_size
Holds-lt text no_buffer (none_yet e) = let z = ap length e in omega arith
Holds-lt text freed h = elim h [ ]
Holds-lt text (buffer gb') (so_far gb v e) = omega (arith, v.counted, v.room, v.small, ap length e)

-- a message for each part
abbrev pub partial_messages : (id : ℕ) → List Bytes → List OsrfMessage
partial_messages id [] = []
partial_messages id (t ∷ ts) = partial_message id t ∷ partial_messages id ts

abbrev pub total_length : List Bytes → ℕ
total_length [] = 0
total_length (t ∷ ts) = length t + total_length ts

-- Each part alone would fit into a buffer.
abbrev pub AreShort : List Bytes → Type 0
AreShort [] = Unit
AreShort (t ∷ ts) = (length t < buffer_max_size) × AreShort ts

module _ (json_parse : Bytes → Option JsonObject) where
  push_all-none :
      (req : AppRequest) (msg : OsrfMessage) (msgs : List OsrfMessage)
      → request_push_queue json_parse req msg ≡ none
      → push_all json_parse req (msg ∷ msgs) ≡ none
  unfolding push_all
  push_all-none req msg msgs e = ap (λ o. and_then o (λ r. push_all json_parse r msgs)) e

  final_freed :
      (id : ℕ) (req : AppRequest)
      → req.part_response_buffer ≡ freed
      → push_all json_parse req (final_message id ∷ []) ≡ none
  unfolding push_collected
  final_freed id req e = push_all-none req (final_message id) [] (
      push-final json_parse req id ∙ ap (λ b. push_collected json_parse req b (final_message id)) e)

  partial_freed :
      (id : ℕ) (req : AppRequest) (partial : Bytes) (more : List OsrfMessage)
      → req.part_response_buffer ≡ freed
      → push_all json_parse req (partial_message id partial ∷ more) ≡ none
  unfolding push_partial
  partial_freed id req partial more e =
      let (code, content, type, trace) = partial_message_fields id partial in
      push_all-none req (partial_message id partial) more (
        push-partial json_parse req _ code
        ∙ ap (push_partial req) content
        ∙ ap (λ b. keep_buffer req (add_partial (ready_buffer b) (some partial))) e)

  -- A part, or the end, after the buffer has been freed.
  push_freed :
      (id : ℕ) (texts : List Bytes) (req : AppRequest)
      → req.part_response_buffer ≡ freed
      → push_all json_parse req (partial_messages id texts ++ final_message id ∷ []) ≡ none
  push_freed id [] req e = final_freed id req e
  push_freed id (t ∷ ts) req e = partial_freed id req t _ e

  -- A part that does not fit in.
  push_long :
      (req : AppRequest) (text partial : Bytes) (id : ℕ)
      → Holds text req.part_response_buffer
      → length partial < buffer_max_size
      → buffer_max_size ≤ length text + length partial
      → request_push_queue json_parse req (partial_message id partial)
        ≡ some (record req { part_response_buffer = freed })
  unfolding push_partial add_partial
  push_long req text partial id h k l =
      let (code, content, type, trace) = partial_message_fields id partial in
      let (gb, e, v, t) = ready-Holds text req.part_response_buffer h in
      let n : length text ≡ gb.n_used = sym (v.counted ∙ ap length t) in
      let small = Holds-lt text req.part_response_buffer h in
      let over = (buffer_add_lem gb partial v (omega arith)).1 (omega arith) (omega arith) in
      push-partial json_parse req _ code
      ∙ ap (push_partial req) content
      ∙ ap (λ b. keep_buffer req (add_partial b (some partial))) e
      ∙ ap (λ r. keep_buffer req (added r)) over

  push_overflow :
      (id : ℕ) (texts : List Bytes) (req : AppRequest) (text : Bytes)
      → Holds text req.part_response_buffer
      → AreShort texts
      → buffer_max_size ≤ length text + total_length texts
      → push_all json_parse req (partial_messages id texts ++ final_message id ∷ []) ≡ none
  push_overflow id [] req text h k l =
      absurd (omega (arith, l, Holds-lt text req.part_response_buffer h))
  push_overflow id (t ∷ ts) req text h k l =
      elim (lt_or_ge (length text + length t) buffer_max_size) [
        | inl fits ↦
            let (b, e, w) = push_message json_parse req text t id h fits in
            push_all-cons json_parse req (record req { part_response_buffer = b }) _ _ e
            ∙ push_overflow id ts (record req { part_response_buffer = b }) (text ++ t) w k.1
                (omega (arith, l, length-append text t))
        | inr over ↦
            push_all-cons json_parse req (record req { part_response_buffer = freed }) _ _
              (push_long req text t id h k.0 over)
            ∙ push_freed id ts (record req { part_response_buffer = freed }) refl
      ]

  -- When a server's parts of a response, each shorter than BUFFER_MAX_SIZE, are together as long or longer,
  -- then `_osrf_app_request_push_queue`, for a request that holds no part of an earlier response, goes on
  -- with a buffer that has been freed, at the latest with the message that ends the parts.
  pub push_all-partial_messages :
      (req : AppRequest) (id : ℕ) (texts : List Bytes)
      → Holds [] req.part_response_buffer
      → AreShort texts
      → buffer_max_size ≤ total_length texts
      → push_all json_parse req (partial_messages id texts ++ final_message id ∷ []) ≡ none
  push_all-partial_messages req id texts h k l =
      push_overflow id texts req [] h k (omega (arith, l))
