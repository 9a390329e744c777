-- ===== src/Stack.antt =====
-- src/libopensrf/osrf_stack.c: how a client session takes its messages in. The last thing that
-- `_do_client` does in a branch may be to send a request again; that message is handed out.
pub mod Placed
pub mod Taking
pub mod Answers
pub mod Calls
pub mod Packets
mod Tests
use open_srf.Prelude.{
  ℕ, Bool, true, false, Option, none, some, List, [], ◌∷◌, ◌++◌, ◌==◌, if◌then◌else◌, Bytes,
  same_bytes, not,
}
use open_srf.JsonObject.{JsonObject}
use open_srf.OsrfMessage.{
  MType, connect, request, result, status, disconnect, OsrfMessage, osrf_message_init,
  osrf_message_set_status_info,
}
use open_srf.AppSession.{AppSession, SessionState, connected, disconnected}
use open_srf.AppSession.Queue.{
  status_ok, session_push_queue, set_complete, request_reset_timeout, reset_remote, request_resend,
}

-- `OSRF_STATUS_COMPLETE` and the other codes of <opensrf/osrf_message.h>
abbrev pub status_continue : ℕ
status_continue = 100

abbrev pub status_complete : ℕ
status_complete = 205

abbrev pub status_redirected : ℕ
status_redirected = 307

abbrev pub status_timeout : ℕ
status_timeout = 408

abbrev pub status_expfailed : ℕ
status_expfailed = 417

-- what a message of an unknown status becomes
unfoldable pub passed_up : OsrfMessage → OsrfMessage
passed_up msg =
    let new_msg = osrf_message_init result msg.thread_trace msg.protocol in
    record (osrf_message_set_status_info new_msg msg.status_name msg.status_text msg.status_code) {
      is_exception = true;
    }

abbrev pub only_session : Option AppSession → Option (AppSession × Option OsrfMessage)
only_session none = none
only_session (some session) = some (session, none)

-- the session after it has lost its server
unfoldable pub lose_remote : AppSession → AppSession
unfolding reset_remote
lose_remote session = record (reset_remote session) { state = disconnected }

-- `_do_client` of a STATUS message
unfoldable pub do_status :
    (Bytes → Option JsonObject)
    → AppSession
    → OsrfMessage
    → Option (AppSession × Option OsrfMessage)
unfolding passed_up lose_remote
do_status json_parse session msg =
    let code = msg.status_code in
    let id = msg.thread_trace in
    if code == status_ok
    then some (record session { state = connected }, none)
    else if code == status_complete
    then some (set_complete session id, none)
    else if code == status_continue
    then some (request_reset_timeout session id, none)
    else if code == status_redirected
    then some (lose_remote session, request_resend (lose_remote session) id)
    else if code == status_expfailed
    then some (lose_remote session, none)
    else if code == status_timeout
    then some (lose_remote session, request_resend (lose_remote session) id)
    else only_session (session_push_queue json_parse (set_complete session id) (passed_up msg))

-- `_do_client` by the type of the message
unfoldable pub do_client_type :
    (Bytes → Option JsonObject)
    → MType
    → AppSession
    → OsrfMessage
    → Option (AppSession × Option OsrfMessage)
unfolding do_status
do_client_type json_parse status session msg = do_status json_parse session msg
do_client_type json_parse result session msg =
    only_session (session_push_queue json_parse session msg)
do_client_type json_parse connect session msg = some (session, none)
do_client_type json_parse request session msg = some (session, none)
do_client_type json_parse disconnect session msg = some (session, none)

-- `_do_client`
unfoldable pub do_client :
    (Bytes → Option JsonObject)
    → AppSession
    → OsrfMessage
    → Option (AppSession × Option OsrfMessage)
unfolding do_client_type
do_client json_parse session msg = do_client_type json_parse msg.m_type session msg

-- several messages in turn, of which none makes the client send a request again
unfoldable pub do_client_all :
    (Bytes → Option JsonObject) → AppSession → List OsrfMessage → Option AppSession
unfolding do_client
do_client_all json_parse session [] = some session
do_client_all json_parse session (msg ∷ msgs) = elim (do_client json_parse session msg) [
  | none ↦ none
  | some (s, none) ↦ do_client_all json_parse s msgs
  | some (s, some again) ↦ none
]
