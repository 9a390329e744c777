-- ===== src/AppSession.antt =====
-- src/libopensrf/osrf_app_session.c: the requests of a session, each with the queue of its responses.
-- A request is named by its index in the store of all that the session has had; what is freed is no
-- longer reached. Request ids are not negative. What jsonParse makes of a text is a parameter.
pub mod Requests
pub mod Unlinking
pub mod Finishing
pub mod Adding
pub mod Queue
pub mod Serving
pub mod Responses
pub mod Collected
pub mod Overflow
pub mod Waiting
pub mod Making
mod Tests
use open_srf.Prelude.{
  ℕ, zero, suc, ◌+◌, ◌%◌, Bool, true, false, Option, none, some, List, [], ◌∷◌, ◌++◌, ltb, ◌==◌,
  if◌then◌else◌, length, get_elem?, get_or, set, replicate, Bytes,
}
use open_srf.GrowingBuffer.{GrowingBuffer, buffer_init, buffer_add, buffer_reset}
use open_srf.JsonObject.{JsonObject, get_string}
use open_srf.OsrfMessage.{
  OsrfMessage, osrf_message_set_status_info, osrf_message_set_result_content,
}

-- `enum OSRF_SESSION_STATE`
pub data SessionState : Type 0 where
  connecting connected disconnected : SessionState

-- `part_response_buffer`: NULL, a buffer, or one that buffer_add has freed
pub data PartialBuffer : Type 0 where
  no_buffer : PartialBuffer
  buffer : GrowingBuffer → PartialBuffer
  freed : PartialBuffer

-- `struct osrf_app_request_struct`, without the session
pub record AppRequest : Type 0 where
  pub request_id : ℕ
  pub complete : Bool
  pub payload : OsrfMessage
  pub result : List OsrfMessage
  pub part_response_buffer : PartialBuffer
  pub reset_timeout : Bool
  pub next : Option ℕ
  pub prev : Option ℕ

-- `struct osrf_app_session_struct`, as far as a client uses it, with the store of requests
pub record AppSession : Type 0 where
  pub orig_remote_id : Bytes
  pub remote_id : Bytes
  pub thread_trace : ℕ
  pub session_id : Bytes
  pub stateless : Bool
  pub state : SessionState
  pub transport_error : Bool
  pub request_hash : List (Option ℕ)
  pub requests : List AppRequest

-- `OSRF_REQUEST_HASH_SIZE`
abbrev pub request_hash_size : ℕ
request_hash_size = 64

-- `osrfAppSessionClientInit` for the address and the session id that it builds, where the transport client
-- and the router are found; the macro ASSUME_STATELESS decides on `stateless`.
unfoldable pub client_init : (target session_id : Bytes) → (stateless : Bool) → AppSession
client_init target session_id stateless = record {
  orig_remote_id = target;
  remote_id = target;
  thread_trace = 0;
  session_id = session_id;
  stateless = stateless;
  state = disconnected;
  transport_error = false;
  request_hash = replicate request_hash_size none;
  requests = [];
}

unfoldable pub request_id_hash : ℕ → ℕ
request_id_hash req_id = req_id % request_hash_size

-- `_osrf_app_request_init`
unfoldable pub app_request_init : OsrfMessage → AppRequest
app_request_init msg = record {
  request_id = msg.thread_trace;
  complete = false;
  payload = msg;
  result = [];
  part_response_buffer = no_buffer;
  reset_timeout = false;
  next = none;
  prev = none;
}

-- the loop of `find_app_request`, with at most so many rounds
unfoldable pub find_from : (fuel : ℕ) → List AppRequest → Option ℕ → (req_id : ℕ) → Option ℕ
find_from zero requests o req_id = none
find_from (suc n) requests none req_id = none
find_from (suc n) requests (some a) req_id = elim (get_elem? requests a) [
  | none ↦ none
  | some req ↦
      let rest = find_from n requests req.next req_id in
      if req.request_id == req_id then some a else rest
]

-- `find_app_request`
unfoldable pub find_app_request : AppSession → ℕ → Option ℕ
unfolding find_from request_id_hash
find_app_request session req_id =
    find_from (length session.requests + 1) session.requests
      (get_or session.request_hash (request_id_hash req_id) none) req_id

-- `add_app_request`
unfoldable pub add_app_request : AppSession → AppRequest → AppSession
unfolding request_id_hash
add_app_request session req =
    let index = request_id_hash req.request_id in
    let head = get_or session.request_hash index none in
    record session {
      request_hash = set session.request_hash index (some (length session.requests));
      requests = session.requests ++ record req { next = head; prev = none } ∷ [];
    }

-- writing to the request at an address
unfoldable pub write_request :
    (AppRequest → AppRequest) → List AppRequest → Option ℕ → List AppRequest
write_request f requests none = requests
write_request f requests (some a) = elim (get_elem? requests a) [
  | none ↦ requests
  | some req ↦ set requests a (f req)
]

-- taking a request with these links out of its linked list
unfoldable pub unlink_request : AppSession → (index : ℕ) → (next prev : Option ℕ) → AppSession
unfolding write_request
unlink_request session index next none = record session {
  request_hash = set session.request_hash index next;
  requests = write_request (λ req. record req { prev = none }) session.requests next;
}
unlink_request session index next (some p) =
    let requests = write_request (λ req. record req { next = next }) session.requests (some p) in
    record session { requests = write_request (λ req. record req { prev = some p }) requests next }

-- `osrf_app_session_request_finish`
unfoldable pub request_finish : AppSession → ℕ → AppSession
unfolding find_app_request unlink_request
request_finish session req_id = elim (find_app_request session req_id) [
  | none ↦ session
  | some a ↦ elim (get_elem? session.requests a) [
    | none ↦ session
    | some old_req ↦ unlink_request session (request_id_hash req_id) old_req.next old_req.prev
  ]
]
