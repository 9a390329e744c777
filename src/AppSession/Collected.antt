-- ===== src/AppSession/Collected.antt =====
-- The end of the parts of a response in src/libopensrf/osrf_app_session.c, and all of them together.
use open_srf.Prelude.{
  ℕ, ◌<◌, ◌≡◌, refl, ap, ◌∙◌, true, Option, none, some, List, [], ◌∷◌, ◌++◌, arith, ltb, length,
  Bytes,
}
use open_srf.GrowingBuffer.{buffer_max_size, buffer_reset}
use open_srf.JsonObject.{JsonObject}
use open_srf.OsrfMessage.{
  OsrfMessage, osrf_message_init, osrf_message_set_status_info, osrf_message_set_result_content,
}
use open_srf.AppSession.{AppRequest, PartialBuffer, no_buffer, buffer, freed}
use open_srf.AppSession.Queue.{ok_text, push_collected, request_push_queue}
use open_srf.AppSession.Serving.{final_message, send_chunked_result}
use open_srf.AppSession.Responses.{Holds, none_yet, so_far, and_then, push_all, push_chunks}

-- A result with what the JSON parser makes of a text.
pub record IsAnswer (json_parse : Bytes → Option JsonObject) (json : Bytes) (m : OsrfMessage)
    : Type 0 where
  pub status : m.status_code ≡ 200
  pub content : m.result_content ≡ json_parse json

module _ (json_parse : Bytes → Option JsonObject) where
  pub push-final :
      (req : AppRequest) (id : ℕ)
      → request_push_queue json_parse req (final_message id)
        ≡ push_collected json_parse req req.part_response_buffer (final_message id)
  unfolding request_push_queue final_message osrf_message_init osrf_message_set_status_info
  push-final req id = refl

  -- what the collected text makes of the request
  collected_lem :
      (req : AppRequest) (text : Bytes) (b : PartialBuffer) (msg : OsrfMessage)
      → Holds text b
      → 0 < length text
      → (b' : PartialBuffer) × (m : OsrfMessage) × (push_collected json_parse req b msg
          ≡ some (record req { part_response_buffer = b'; result = req.result ++ m ∷ [] }))
        × IsAnswer json_parse text m
        × Holds [] b'
  unfolding push_collected osrf_message_set_status_info osrf_message_set_result_content buffer_reset
  collected_lem req text no_buffer msg (none_yet e) l = absurd (omega (arith, ap length e))
  collected_lem req text freed msg h l = elim h [ ]
  collected_lem req text (buffer gb') msg (so_far gb v e) l =
      let used : ltb 0 gb.n_used ≡ true =
        let z : 0 < gb.n_used = omega (arith, v.counted, ap length e) in ground arith in
      (
        buffer (buffer_reset gb),
        osrf_message_set_result_content json_parse
            (osrf_message_set_status_info msg none (some ok_text) 200) gb.buf,
        rw used refl,
        record { status = refl; content = ap json_parse e },
        so_far (buffer_reset gb)
            (record { counted = refl; room = omega (arith, v.room); small = v.small }) refl,
      )

  push_all-append :
      (req req' : AppRequest) (msgs more : List OsrfMessage)
      → push_all json_parse req msgs ≡ some req'
      → push_all json_parse req (msgs ++ more) ≡ push_all json_parse req' more
  unfolding push_all
  push_all-append req req' [] more e =
      let same : req ≡ req' = cc in ap (λ r. push_all json_parse r more) same
  push_all-append req req' (m ∷ msgs) more e =
      further (request_push_queue json_parse req m) (λ r. push_all-append r req' msgs more) e
    where
      further :
          (o : Option AppRequest)
          → ((r : AppRequest)
              → push_all json_parse r msgs ≡ some req'
              → push_all json_parse r (msgs ++ more) ≡ push_all json_parse req' more)
          → and_then o (λ r. push_all json_parse r msgs) ≡ some req'
          → and_then o (λ r. push_all json_parse r (msgs ++ more)) ≡ push_all json_parse req' more
      further none rec e = cc
      further (some r) rec e = rec r e

  push_all_one :
      (req req' : AppRequest) (msg : OsrfMessage)
      → request_push_queue json_parse req msg ≡ some req'
      → push_all json_parse req (msg ∷ []) ≡ some req'
  unfolding push_all
  push_all_one req req' msg e = ap (λ o. and_then o some) e

  -- The messages of `osrfSendChunkedResult` leave one result behind the others.
  pub push_chunked_result :
      (req : AppRequest) (id : ℕ) (json : Bytes) (chunk_size : ℕ)
      → Holds [] req.part_response_buffer
      → 0 < chunk_size
      → 0 < length json
      → length json < buffer_max_size
      → (b : PartialBuffer) × (m : OsrfMessage) × (push_all json_parse req
            (send_chunked_result id json (length json) chunk_size)
          ≡ some (record req { part_response_buffer = b; result = req.result ++ m ∷ [] }))
        × IsAnswer json_parse json m
        × Holds [] b
  unfolding send_chunked_result
  push_chunked_result req id json chunk_size h p l k =
      let (b, e, g) =
        push_chunks json_parse (length json) 0 req [] id json chunk_size h p (omega arith)
          (omega (arith, k)) in
      let next = record req { part_response_buffer = b } in
      let (b', m, e', a, h') = collected_lem next json b (final_message id) g l in
      (
        b',
        m,
        push_all-append req next _ (final_message id ∷ []) e
            ∙ push_all_one next _ (final_message id) (push-final next id ∙ e'),
        a,
        h',
      )
