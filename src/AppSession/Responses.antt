-- ===== src/AppSession/Responses.antt =====
-- The answer of a server, in one message or in parts, as a client takes it in: src/libopensrf/
-- osrf_app_session.c on both sides, and src/libopensrf/osrf_stack.c.
use open_srf.Prelude.{
  ℕ, zero, suc, ◌+◌, ◌<◌, ◌≤◌, ◌≡◌, refl, sym, ap, subst, ◌∙◌, inl, inr, Option, none, some, List,
  [], ◌∷◌, ◌++◌, arith, ltb, if◌then◌else◌, length, length-append, append-nil, append_assoc, take,
  Bytes, Bool-cases,
}
use open_srf.GrowingBuffer.{GrowingBuffer, buffer_max_size, buffer_init}
use open_srf.GrowingBuffer.Growth.{IsBuffer, buffer_add_lem}
use open_srf.JsonObject.{JsonObject, new_object, clone}
use open_srf.OsrfMessage.{
  MType, OsrfMessage, osrf_message_init, osrf_message_set_status_info, osrf_message_set_result,
}
use open_srf.AppSession.{AppRequest, PartialBuffer, no_buffer, buffer, freed}
use open_srf.AppSession.Queue.{
  ready_buffer, add_partial, push_partial, text_of, keep_buffer, added, request_push_queue,
}
use open_srf.AppSession.Serving.{drop, partial_message, send_chunks}

-- the text that has been collected so far
pub data Holds (text : Bytes) : PartialBuffer → Type 0 where
  none_yet : text ≡ [] → Holds text no_buffer
  so_far : (gb : GrowingBuffer) → IsBuffer gb → gb.buf ≡ text → Holds text (buffer gb)

abbrev pub and_then : Option AppRequest → (AppRequest → Option AppRequest) → Option AppRequest
and_then none f = none
and_then (some req) f = f req

-- messages to one request in turn
unfoldable pub push_all :
    (Bytes → Option JsonObject) → AppRequest → List OsrfMessage → Option AppRequest
push_all json_parse req [] = some req
push_all json_parse req (msg ∷ msgs) =
    and_then (request_push_queue json_parse req msg) (λ r. push_all json_parse r msgs)

empty_buffer : GrowingBuffer
empty_buffer = record { buf = []; n_used = 0; size = 51201 }

empty_buffer-IsBuffer : IsBuffer empty_buffer
unfolding empty_buffer
empty_buffer-IsBuffer = record { counted = refl; room = omega arith; small = omega arith }

pub ready-Holds :
    (text : Bytes) (b : PartialBuffer)
    → Holds text b
    → (gb : GrowingBuffer) × (ready_buffer b ≡ buffer gb) × IsBuffer gb × (gb.buf ≡ text)
unfolding ready_buffer empty_buffer buffer_init
ready-Holds text no_buffer (none_yet e) = (empty_buffer, refl, empty_buffer-IsBuffer, sym e)
ready-Holds text freed h = elim h [ ]
ready-Holds text (buffer gb') (so_far gb v e) = (gb, refl, v, e)

pub partial_message_fields :
    (id : ℕ) (partial : Bytes)
    → let msg = partial_message id partial in
      (msg.status_code ≡ 206)
      × (text_of msg.result_content ≡ some partial)
      × (msg.m_type ≡ MType.result)
      × (msg.thread_trace ≡ id)
unfolding partial_message text_of osrf_message_init osrf_message_set_status_info
    osrf_message_set_result new_object clone
partial_message_fields id partial = (refl, refl, refl, refl)

pub push-partial :
    (json_parse : Bytes → Option JsonObject) (req : AppRequest) (msg : OsrfMessage)
    → msg.status_code ≡ 206
    → request_push_queue json_parse req msg ≡ push_partial req (text_of msg.result_content)
unfolding request_push_queue
push-partial json_parse req msg e = rw e refl

-- A part is added to what has been collected.
push_partial-Holds :
    (req : AppRequest) (text partial : Bytes)
    → Holds text req.part_response_buffer
    → length text + length partial < buffer_max_size
    → (b : PartialBuffer) × (push_partial req (some partial)
        ≡ some (record req { part_response_buffer = b }))
      × Holds (text ++ partial) b
unfolding push_partial add_partial
push_partial-Holds req text partial h l =
    let (gb, e, v, t) = ready-Holds text req.part_response_buffer h in
    let (gb', a, w, u) =
      (buffer_add_lem gb partial v (omega (arith, v.counted, ap length t))).0
        (omega (arith, v.counted, ap length t)) in
    (
      buffer gb',
      ap (λ b. keep_buffer req (add_partial b (some partial))) e
          ∙ ap (λ r. keep_buffer req (added r)) a,
      so_far gb' w (u ∙ ap (λ s. s ++ partial) t),
    )

pub drop-drop : (i k : ℕ) (s : Bytes) → drop (i + k) s ≡ drop k (drop i s)
unfolding drop
drop-drop zero k s = ap (λ n. drop n s) (omega arith)
drop-drop (suc i) k [] = ap (λ n. drop n []) {y = suc (i + k)} (omega arith) ∙ sym (drop-nil k)
  where
    drop-nil : (k : ℕ) → drop k [] ≡ []
    drop-nil zero = refl
    drop-nil (suc k) = refl
drop-drop (suc i) k (c ∷ s) =
    ap (λ n. drop n (c ∷ s)) {y = suc (i + k)} (omega arith) ∙ drop-drop i k s

pub drop_all : (i : ℕ) (s : Bytes) → length s ≤ i → drop i s ≡ []
unfolding drop
drop_all zero [] l = refl
drop_all zero (c ∷ s) l = absurd (omega arith)
drop_all (suc i) [] l = refl
drop_all (suc i) (c ∷ s) l = drop_all i s (omega arith)

-- the part of a text that one message takes, and the rest
pub part_rest :
    (n : ℕ) (s : Bytes) → take (if ltb n (length s) then n else length s) s ++ drop n s ≡ s
unfolding drop
part_rest zero [] = refl
part_rest (suc n) [] = ap (λ k. take k [] ++ []) {y = 0} (ground arith)
part_rest zero (c ∷ s) = ap (λ k. take k (c ∷ s) ++ c ∷ s) {y = 0} (ground arith)
part_rest (suc n) (c ∷ s) =
    ap (λ k. take k (c ∷ s) ++ drop n s) {y = suc (if ltb n (length s) then n else length s)}
      (ground arith)
    ∙ ap (λ z. c ∷ z) (part_rest n s)

module _ (json_parse : Bytes → Option JsonObject) where
  pub push_all-cons :
      (req req' : AppRequest) (msg : OsrfMessage) (msgs : List OsrfMessage)
      → request_push_queue json_parse req msg ≡ some req'
      → push_all json_parse req (msg ∷ msgs) ≡ push_all json_parse req' msgs
  unfolding push_all
  push_all-cons req req' msg msgs e = ap (λ o. and_then o (λ r. push_all json_parse r msgs)) e

  pub push_message :
      (req : AppRequest) (text partial : Bytes) (id : ℕ)
      → Holds text req.part_response_buffer
      → length text + length partial < buffer_max_size
      → (b : PartialBuffer) × (request_push_queue json_parse req (partial_message id partial)
          ≡ some (record req { part_response_buffer = b }))
        × Holds (text ++ partial) b
  push_message req text partial id h l =
      let (code, content, type, trace) = partial_message_fields id partial in
      let (b, e, k) = push_partial-Holds req text partial h l in
      (b, push-partial json_parse req _ code ∙ ap (push_partial req) content ∙ e, k)

  -- The loop of `osrfSendChunkedResult` sends what is left of the payload.
  pub push_chunks :
      (fuel i : ℕ) (req : AppRequest) (text : Bytes) (id : ℕ) (payload : Bytes) (chunk_size : ℕ)
      → Holds text req.part_response_buffer
      → 0 < chunk_size
      → length payload ≤ i + fuel
      → length text + length (drop i payload) < buffer_max_size
      → (b : PartialBuffer) × (push_all json_parse req
            (send_chunks fuel id payload (length payload) chunk_size i)
          ≡ some (record req { part_response_buffer = b }))
        × Holds (text ++ drop i payload) b
  unfolding push_all send_chunks
  push_chunks zero i req text id payload chunk_size h p l m =
      let end : text ++ drop i payload ≡ text =
        ap (λ z. text ++ z) (drop_all i payload (omega arith)) ∙ append-nil text in
      (req.part_response_buffer, refl, subst (λ z. Holds z req.part_response_buffer) (sym end) h)
  push_chunks (suc n) i req text id payload chunk_size h p l m =
      elim (Bool-cases (ltb i (length payload))) [
        | inl more ↦
            let rest = drop i payload in
            let size = if ltb chunk_size (length rest) then chunk_size else length rest in
            let part = take size rest in
            let behind : drop (i + chunk_size) payload ≡ drop chunk_size rest =
              drop-drop i chunk_size payload in
            let whole : part ++ drop (i + chunk_size) payload ≡ rest =
              ap (λ z. part ++ z) behind ∙ part_rest chunk_size rest in
            let sizes : length part + length (drop (i + chunk_size) payload) ≡ length rest =
              sym (length-append part (drop (i + chunk_size) payload)) ∙ ap length whole in
            let (b, e, k) = push_message req text part id h (omega (arith, sizes)) in
            let next = record req { part_response_buffer = b } in
            let (b', e', k') =
              push_chunks n (i + chunk_size) next (text ++ part) id payload chunk_size k p
                (omega arith) (omega (arith, sizes, length-append text part)) in
            (
              b',
              rw more (push_all-cons req next _ _ e ∙ e'),
              subst (λ z. Holds z b')
                  (append_assoc text part (drop (i + chunk_size) payload)
                    ∙ ap (λ z. text ++ z) whole)
                  k',
            )
        | inr done ↦
            let end : text ++ drop i payload ≡ text =
              ap (λ z. text ++ z) (drop_all i payload (ground arith)) ∙ append-nil text in
            (
              req.part_response_buffer,
              rw done refl,
              subst (λ z. Holds z req.part_response_buffer) (sym end) h,
            )
      ]
