-- ===== src/AppSession/Waiting.antt =====
-- Sending and waiting in src/libopensrf/osrf_app_session.c. What osrf_app_session_queue_wait makes of the
-- session or of the request is a parameter, and so is the clock, which does not run backwards. Where
-- the waits that are given end first, there is no result. client_send_message succeeds, since the
-- process exits if it does not. The locale of the session is left out.
pub mod Timeout
pub mod Connecting
use open_srf.Prelude.{
  ℕ, ◌+◌, ◌-◌, Bool, true, false, not, ◌&&◌, Option, none, some, List, [], ◌∷◌, ltb, if◌then◌else◌,
  Bytes,
}
use open_srf.OsrfMessage.{OsrfMessage, MType, connect, request, result, status, disconnect}
use open_srf.AppSession.{AppRequest, AppSession, SessionState, connecting, connected, disconnected}
use open_srf.AppSession.Queue.{reset_remote}

-- `remaining -= elapsed`, `none` below 0
unfoldable pub lower : (remaining elapsed : ℕ) → Option ℕ
lower remaining elapsed = if ltb remaining elapsed then none else some (remaining - elapsed)

-- what a wait makes of a request, and whether there was a transport error
abbrev pub RequestWait : Type 0
RequestWait = AppRequest → AppRequest × Bool

-- one round of the loop of `_osrf_app_request_recv`, and the clock after it
pub record Round : Type 0 where
  pub first : RequestWait
  pub second : RequestWait
  pub now : ℕ

-- a wait that ends the call, with the message, or not
pub data Looked : Type 0 where
  returned : AppRequest → Option OsrfMessage → Looked
  waiting : AppRequest → Looked

-- taking the first message of the queue
unfoldable pub dequeue : AppRequest → List OsrfMessage → Looked
dequeue req [] = if req.complete then returned req none else waiting req
dequeue req (msg ∷ msgs) = returned (record req { result = msgs }) (some msg)

-- what `_osrf_app_request_recv` does after a wait
unfoldable pub look : AppRequest × Bool → Looked
unfolding dequeue
look (req, transport_error) = if transport_error then returned req none else dequeue req req.result

abbrev pub and_look : Looked → RequestWait → Looked
and_look (returned req m) wait = returned req m
and_look (waiting req) wait = look (wait req)

-- the time that is left after a round
unfoldable pub time_left : AppRequest → (timeout remaining elapsed : ℕ) → Option ℕ
unfolding lower
time_left req timeout remaining elapsed =
    if req.reset_timeout then some timeout else lower remaining elapsed

-- the loop of `_osrf_app_request_recv`
unfoldable pub recv_from :
    List Round
    → (timeout start : ℕ) → (remaining : Option ℕ) → AppRequest
    → Option (AppRequest × Option OsrfMessage)
unfolding look time_left
recv_from [] timeout start none req = some (req, none)
recv_from [] timeout start (some remaining) req = none
recv_from (r ∷ rounds) timeout start none req = some (req, none)
recv_from (r ∷ rounds) timeout start (some remaining) req =
    elim (and_look (look (r.first req)) r.second) [
      | returned req' m ↦ some (req', m)
      | waiting req' ↦
          recv_from rounds timeout start (time_left req' timeout remaining (r.now - start))
            (record req' { reset_timeout = false })
    ]

-- `_osrf_app_request_recv`
unfoldable pub request_recv :
    List Round → (timeout start : ℕ) → AppRequest → Option (AppRequest × Option OsrfMessage)
unfolding recv_from
request_recv rounds timeout start req = elim req.result [
  | [] ↦ recv_from rounds timeout start (some timeout) req
  | msg ∷ msgs ↦ some (record req { result = msgs }, some msg)
]

-- one wait in `osrfAppSessionConnect`, and the clock after it
pub record Wait : Type 0 where
  pub effect : AppSession → AppSession
  pub now : ℕ

abbrev pub is_connected : SessionState → Bool
is_connected connected = true
is_connected connecting = false
is_connected disconnected = false

-- the loop of `osrfAppSessionConnect`, and what it returns
unfoldable pub connect_from :
    List Wait → (start : ℕ) → (remaining : Option ℕ) → AppSession → Option (AppSession × Bool)
unfolding lower
connect_from [] start none s = some (s, is_connected s.state)
connect_from (w ∷ waits) start none s = some (s, is_connected s.state)
connect_from [] start (some remaining) s = if is_connected s.state then some (s, true) else none
connect_from (w ∷ waits) start (some remaining) s =
    let s' = w.effect s in
    let rest = connect_from waits start (lower remaining (w.now - start)) s' in
    if is_connected s.state
    then some (s, true)
    else if s'.transport_error
    then some (s', false)
    else rest

-- `osrfAppSessionSendBatch` up to the sending, where no connection is to be made first; `wait` is the
-- wait before it.
unfoldable pub prepare : (wait : AppSession → AppSession) → AppSession → AppSession
prepare wait session =
    let s = wait session in if not (is_connected s.state) && s.stateless then reset_remote s else s

-- `osrfAppSessionConnect`, and what it returns: the CONNECT message goes to the session's remote id.
unfoldable pub session_connect :
    (wait : AppSession → AppSession)
    → List Wait
    → (start : ℕ) → AppSession
    → Option (AppSession × Bool)
unfolding connect_from prepare reset_remote
session_connect wait waits start session =
    let asked = prepare wait (record (reset_remote session) { state = connecting }) in
    let answered = connect_from waits start (some 5) asked in
    if is_connected session.state then some (session, true) else answered

-- whether a message is sent without a connection
abbrev pub needs_connection : MType → Bool
needs_connection connect = false
needs_connection disconnect = false
needs_connection request = true
needs_connection result = true
needs_connection status = true

abbrev pub if_connected : Option (AppSession × Bool) → Option (AppSession × Option Bytes)
if_connected none = none
if_connected (some (s, true)) = some (s, some s.remote_id)
if_connected (some (s, false)) = some (s, none)

-- `osrfAppSessionSendBatch`, by the type of the first message: to whom it sends, `none` where it returns -1
unfoldable pub send_batch :
    (wait : AppSession → AppSession)
    → (wait_connect : AppSession → AppSession) → List Wait
    → (start : ℕ) → AppSession
    → MType
    → Option (AppSession × Option Bytes)
unfolding session_connect reset_remote
send_batch wait wait_connect waits start session type =
    let s = wait session in
    let root = reset_remote s in
    let dialled = if_connected (session_connect wait_connect waits start s) in
    if is_connected s.state
    then some (s, some s.remote_id)
    else if s.stateless
    then some (root, some root.remote_id)
    else if needs_connection type
    then dialled
    else some (s, some s.remote_id)

-- `osrf_app_session_disconnect`: the session and to whom the DISCONNECT message is sent, if any
unfoldable pub session_disconnect :
    (wait : AppSession → AppSession) → AppSession → AppSession × Option Bytes
unfolding prepare reset_remote
session_disconnect wait session =
    let s = prepare wait session in
    let gone : AppSession × Option Bytes =
      (record (reset_remote s) { state = disconnected }, some s.remote_id) in
    elim session.state as (λ x. AppSession × Option Bytes) [
      | disconnected ↦ (session, none)
      | connected ↦ gone
      | connecting ↦ if session.stateless then (session, none) else gone
    ]
