-- ===== src/Stack/Answers.antt =====
-- A server's answer by `osrfAppRequestRespondComplete` of src/libopensrf/osrf_app_session.c, taken in by
-- `_do_client` of src/libopensrf/osrf_stack.c.
use open_srf.Prelude.{
  ℕ, zero, suc, ◌+◌, ◌<◌, ◌≡◌, refl, ap, ◌∙◌, inl, inr, true, ◌&&◌, Option, none, some, List, [],
  ◌∷◌, ◌++◌, arith, ltb, length, Bytes, Bool-cases,
}
use open_srf.GrowingBuffer.{buffer_max_size}
use open_srf.JsonObject.{JsonObject}
use open_srf.OsrfMessage.{
  OsrfMessage, osrf_message_init, osrf_message_set_status_info, osrf_message_set_result_content,
}
use open_srf.AppSession.{AppRequest, AppSession}
use open_srf.AppSession.Collected.{IsAnswer, push_chunked_result}
use open_srf.AppSession.Queue.{request_push_queue, set_complete}
use open_srf.AppSession.Responses.{Holds, push_all, partial_message_fields}
use open_srf.AppSession.Serving.{
  final_message, complete_message, result_message, send_chunks, send_chunked_result, one_each,
  chunk_size_of, respond_complete,
}
use open_srf.Stack.{do_client, do_client_all}
use open_srf.Stack.Placed.{IsAt, replaced, replaced-IsAt, set_complete_lem}
use open_srf.Stack.Taking.{AreFor, do_client_all-push_all}

-- the messages of several transport messages in turn
abbrev pub together : List (List OsrfMessage) → List OsrfMessage
together [] = []
together (msgs ∷ more) = msgs ++ together more

together-one_each :
    (msgs : List OsrfMessage) (m : OsrfMessage)
    → together (one_each msgs ++ (m ∷ []) ∷ []) ≡ msgs ++ m ∷ []
together-one_each [] m = refl
together-one_each (n ∷ msgs) m = ap (λ z. n ∷ z) (together-one_each msgs m)

send_chunks-AreFor :
    (fuel id : ℕ) (payload : Bytes) (size chunk i : ℕ) (more : List OsrfMessage)
    → AreFor id more
    → AreFor id (send_chunks fuel id payload size chunk i ++ more)
unfolding send_chunks
send_chunks-AreFor zero id payload size chunk i more f = f
send_chunks-AreFor (suc n) id payload size chunk i more f =
    let (code, content, type, trace) = partial_message_fields id _ in
    let rest = send_chunks-AreFor n id payload size chunk (i + chunk) more f in
    elim (Bool-cases (ltb i size)) [ inl t ↦ rw t (type, trace, rest) | inr t ↦ rw t f ]

chunked-AreFor :
    (id : ℕ) (json : Bytes) (size chunk : ℕ) → AreFor id (send_chunked_result id json size chunk)
unfolding send_chunked_result final_message osrf_message_init osrf_message_set_status_info
chunked-AreFor id json size chunk =
    send_chunks-AreFor size id json size chunk 0 (final_message id ∷ []) (refl, refl, tt)

do_client_complete :
    (json_parse : Bytes → Option JsonObject) (s : AppSession) (id : ℕ)
    → do_client json_parse s (complete_message id) ≡ some (set_complete s id, none)
unfolding do_client complete_message osrf_message_init osrf_message_set_status_info
do_client_complete json_parse s id = refl

-- what the client comes to: the request has one more result, and is complete
pub record IsAnswered (json_parse : Bytes → Option JsonObject) (id a : ℕ) (req : AppRequest)
    (json : Bytes) (o : Option AppSession) : Type 0 where
  pub session : AppSession
  pub request : AppRequest
  pub answer : OsrfMessage
  pub taken_in : o ≡ some session
  pub at : IsAt session id a request
  pub queued : request.result ≡ req.result ++ answer ∷ []
  pub is_complete : request.complete ≡ true
  pub is_answer : IsAnswer json_parse json answer

module _ (json_parse : Bytes → Option JsonObject) where
  -- results in the end complete
  completed :
      (s : AppSession) (id a : ℕ) (req req' : AppRequest) (json : Bytes) (m : OsrfMessage)
      (msgs : List OsrfMessage)
      → IsAt s id a req
      → AreFor id msgs
      → push_all json_parse req msgs ≡ some req'
      → req'.result ≡ req.result ++ m ∷ []
      → IsAnswer json_parse json m
      → IsAnswered json_parse id a req json
          (do_client_all json_parse s (msgs ++ complete_message id ∷ []))
  unfolding do_client_all
  completed s id a req req' json m msgs v f e q w =
      let (s', v', t) =
        do_client_all-push_all json_parse s id a req req' msgs (complete_message id ∷ []) v f e in
      record {
        session = replaced s' a (record req' { complete = true });
        request = record req' { complete = true };
        answer = m;
        taken_in =
            t
            ∙ rw (do_client_complete json_parse s' id, do_client_all)
                (ap some (set_complete_lem v'));
        at = replaced-IsAt (record req' { complete = true }) v' refl refl;
        queued = q;
        is_complete = refl;
        is_answer = w;
      }

  -- one message
  whole-IsAnswered :
      (s : AppSession) (id a : ℕ) (req : AppRequest) (json : Bytes)
      → IsAt s id a req
      → IsAnswered json_parse id a req json (
          do_client_all json_parse s (result_message json_parse id json ∷ complete_message id ∷ []))
  unfolding result_message push_all request_push_queue osrf_message_init
      osrf_message_set_status_info osrf_message_set_result_content
  whole-IsAnswered s id a req json v =
      let m = result_message json_parse id json in
      completed s id a req (record req { result = req.result ++ m ∷ [] }) json m (m ∷ []) v
        (refl, refl, tt) refl refl (record { status = refl; content = refl })

  chunked-IsAnswered :
      (s : AppSession) (id a : ℕ) (req : AppRequest) (json : Bytes) (chunk_size : ℕ)
      → IsAt s id a req
      → Holds [] req.part_response_buffer
      → 0 < chunk_size
      → chunk_size < length json
      → length json < buffer_max_size
      → IsAnswered json_parse id a req json (
          do_client_all json_parse s
            (send_chunked_result id json (length json) chunk_size ++ complete_message id ∷ []))
  chunked-IsAnswered s id a req json chunk_size v h p l k =
      let (b, m, e, w, g) =
        push_chunked_result json_parse req id json chunk_size h p (omega arith) k in
      completed s id a req _ json m _ v (chunked-AreFor id json (length json) chunk_size) e refl w

  -- Whatever the sizes of the chunks, when a client session takes in the messages by which
  -- `osrfAppRequestRespondComplete` answers one of its requests, of which no part of an earlier response is
  -- left over, with a JSON text shorter than BUFFER_MAX_SIZE, the queue of the request has exactly one more
  -- result, whose content is what the JSON parser makes of the whole text, and the request is complete.
  pub respond_complete-IsAnswered :
      (escaping_length : Bytes → ℕ) (scaled : ℕ → ℕ → ℕ) (s : AppSession) (id a : ℕ)
      (req : AppRequest) (json : Bytes)
      → IsAt s id a req
      → Holds [] req.part_response_buffer
      → length json < buffer_max_size
      → IsAnswered json_parse id a req json (
          do_client_all json_parse s
            (together (respond_complete json_parse escaping_length scaled id (some json))))
  unfolding respond_complete
  respond_complete-IsAnswered escaping_length scaled s id a req json v h l =
      let size = chunk_size_of scaled (length json) (escaping_length json) in
      elim (Bool-cases (ltb 0 size && ltb size (length json))) [
        | inl t ↦
            rw
              (
                t,
                together-one_each (send_chunked_result id json (length json) size)
                    (complete_message id),
              )
              (chunked-IsAnswered s id a req json size v h (ground arith) (ground arith) l)
        | inr t ↦ rw t (whole-IsAnswered s id a req json v)
      ]
