-- ===== src/AppSession/Queue.antt =====
-- The queue of the responses to a request, in src/libopensrf/osrf_app_session.c. Where the code goes on
-- with a buffer that buffer_add has freed, or writes behind the memory, there is no result.
use open_srf.Prelude.{
  ℕ, ◌+◌, Bool, true, false, Option, none, some, [], ◌∷◌, ◌++◌, ltb, ◌==◌, if◌then◌else◌, get_elem?,
  Bytes,
}
use open_srf.GrowingBuffer.{
  GrowingBuffer, Addition, appended, failed, overrun, buffer_init, buffer_add, buffer_reset,
}
use open_srf.JsonObject.{JsonObject, get_string}
use open_srf.OsrfMessage.{
  OsrfMessage, osrf_message_set_status_info, osrf_message_set_result_content,
}
use open_srf.AppSession.{
  PartialBuffer, no_buffer, buffer, freed, AppRequest, AppSession, find_app_request, write_request,
}

-- `OSRF_STATUS_OK`, `OSRF_STATUS_PARTIAL`, `OSRF_STATUS_NOCONTENT`
abbrev pub status_ok : ℕ
status_ok = 200

abbrev pub status_partial : ℕ
status_partial = 206

abbrev pub status_nocontent : ℕ
status_nocontent = 204

-- `OSRF_MSG_CHUNK_SIZE`
abbrev pub msg_chunk_size : ℕ
msg_chunk_size = 51200

-- "OK"
abbrev pub ok_text : Bytes
ok_text = b'O' ∷ b'K' ∷ []

abbrev made : Option GrowingBuffer → PartialBuffer
made none = no_buffer
made (some gb) = buffer gb

abbrev pub added : Addition → Option PartialBuffer
added (appended gb n) = some (buffer gb)
added failed = some freed
added overrun = none

-- the buffer, which is made if there is none
unfoldable pub ready_buffer : PartialBuffer → PartialBuffer
ready_buffer no_buffer = made (buffer_init (msg_chunk_size + 1))
ready_buffer (buffer gb) = buffer gb
ready_buffer freed = freed

-- adding the text of a partial message; buffer_add of NULL in place of a buffer does nothing.
unfoldable pub add_partial : PartialBuffer → Option Bytes → Option PartialBuffer
add_partial b none = some b
add_partial no_buffer (some partial) = some no_buffer
add_partial (buffer gb) (some partial) = added (buffer_add gb partial)
add_partial freed (some partial) = none

-- `jsonObjectGetString`, also of NULL
unfoldable pub text_of : Option JsonObject → Option Bytes
unfolding get_string
text_of none = none
text_of (some o) = get_string o

abbrev pub keep_buffer : AppRequest → Option PartialBuffer → Option AppRequest
keep_buffer req none = none
keep_buffer req (some b) = some (record req { part_response_buffer = b })

-- a partial message
unfoldable pub push_partial : AppRequest → Option Bytes → Option AppRequest
unfolding ready_buffer add_partial
push_partial req partial =
    keep_buffer req (add_partial (ready_buffer req.part_response_buffer) partial)

-- the end of partial messages, which gives the message with what they hold together
unfoldable pub push_collected :
    (Bytes → Option JsonObject) → AppRequest → PartialBuffer → OsrfMessage → Option AppRequest
push_collected json_parse req no_buffer result = some req
push_collected json_parse req freed result = none
push_collected json_parse req (buffer gb) result =
    let named = osrf_message_set_status_info result none (some ok_text) status_ok in
    let whole = osrf_message_set_result_content json_parse named gb.buf in
    let pushed = record req {
      part_response_buffer = buffer (buffer_reset gb);
      result = req.result ++ whole ∷ [];
    } in
    if ltb 0 gb.n_used then some pushed else some req

-- `_osrf_app_request_push_queue`
unfoldable pub request_push_queue :
    (Bytes → Option JsonObject) → AppRequest → OsrfMessage → Option AppRequest
unfolding text_of push_partial push_collected
request_push_queue json_parse req result =
    if result.status_code == status_partial
    then push_partial req (text_of result.result_content)
    else if result.status_code == status_nocontent
    then push_collected json_parse req req.part_response_buffer result
    else some (record req { result = req.result ++ result ∷ [] })

-- `osrf_app_session_push_queue`
unfoldable pub session_push_queue :
    (Bytes → Option JsonObject) → AppSession → OsrfMessage → Option AppSession
session_push_queue json_parse session msg = elim (find_app_request session msg.thread_trace) [
  | none ↦ some session
  | some a ↦ elim (get_elem? session.requests a) [
    | none ↦ some session
    | some req ↦ elim (request_push_queue json_parse req msg) [
      | none ↦ none
      | some req' ↦
          some (record session { requests = write_request (λ r. req') session.requests (some a) })
    ]
  ]
]

-- a change of the request with an id, if it is found
unfoldable pub change_request : (AppRequest → AppRequest) → AppSession → ℕ → AppSession
change_request f session req_id = record session {
  requests = write_request f session.requests (find_app_request session req_id);
}

-- `osrf_app_session_set_complete`
unfoldable pub set_complete : AppSession → ℕ → AppSession
unfolding change_request
set_complete session req_id = change_request (λ req. record req { complete = true }) session req_id

-- `osrf_app_session_request_reset_timeout`
unfoldable pub request_reset_timeout : AppSession → ℕ → AppSession
unfolding change_request
request_reset_timeout session req_id =
    change_request (λ req. record req { reset_timeout = true }) session req_id

abbrev request_of : AppSession → Option ℕ → Option AppRequest
request_of session none = none
request_of session (some a) = get_elem? session.requests a

-- `osrf_app_session_request_complete`
unfoldable pub request_complete : AppSession → ℕ → Bool
request_complete session req_id = elim (request_of session (find_app_request session req_id)) [
  | none ↦ false
  | some req ↦ req.complete
]

-- `osrf_app_session_set_remote`, of a name that is not NULL
unfoldable pub set_remote : AppSession → Bytes → AppSession
set_remote session remote_id = record session { remote_id = remote_id }

-- `osrf_app_session_reset_remote`
unfoldable pub reset_remote : AppSession → AppSession
unfolding set_remote
reset_remote session = set_remote session session.orig_remote_id

-- `osrf_app_session_request_resend`: the message that it passes to `_osrf_app_session_send`
unfoldable pub request_resend : AppSession → ℕ → Option OsrfMessage
request_resend session req_id = elim (request_of session (find_app_request session req_id)) [
  | none ↦ none
  | some req ↦ if req.complete then none else some req.payload
]
