-- ===== src/Stack/Packets.antt =====
-- How `osrf_stack_transport_handler` of src/libopensrf/osrf_stack.c takes in a packet for a client session
-- that is found, when its body holds these messages. Each message comes with what surrounds the one
-- sending of a request that may follow it. The ingress, which is global, is left out.
use open_srf.Prelude.{
  ℕ, Bool, true, false, ◌&&◌, Option, none, some, List, [], ◌∷◌, ◌++◌, if◌then◌else◌, Bytes,
  same_bytes,
}
use open_srf.JsonObject.{JsonObject}
use open_srf.OsrfMessage.{OsrfMessage, status}
use open_srf.AppSession.{AppSession}
use open_srf.AppSession.Queue.{set_remote}
use open_srf.AppSession.Waiting.{Wait, needs_connection, send_batch}
use open_srf.AppSession.Waiting.Connecting.{IsAllowed}
use open_srf.Stack.{status_redirected, do_client}

-- what surrounds a call of `osrfAppSessionSendBatch`
pub record Sending : Type 0 where
  pub wait : AppSession → AppSession
  pub wait_connect : AppSession → AppSession
  pub waits : List Wait
  pub start : ℕ

-- a session, with the requests that were sent again and to whom
abbrev pub Resent : Type 0
Resent = AppSession × List (OsrfMessage × Bytes)

abbrev pub sent_again : OsrfMessage → Option (AppSession × Option Bytes) → Option Resent
sent_again again none = none
sent_again again (some (s, none)) = some (s, [])
sent_again again (some (s, some to)) = some (s, (again, to) ∷ [])

-- sending a request again, if there is one
unfoldable pub resend : Sending → AppSession → Option OsrfMessage → Option Resent
resend p session none = some (session, [])
resend p session (some again) =
    sent_again again (send_batch p.wait p.wait_connect p.waits p.start session again.m_type)

abbrev pub and_resend : Sending → Option (AppSession × Option OsrfMessage) → Option Resent
and_resend p none = none
and_resend p (some (session, again)) = resend p session again

-- a message of a bounced packet
unfoldable pub as_redirect : OsrfMessage → OsrfMessage
as_redirect msg = record msg { m_type = status; status_code = status_redirected }

abbrev pub with_sent : List (OsrfMessage × Bytes) → Option Resent → Option Resent
with_sent sent none = none
with_sent sent (some (session, more)) = some (session, sent ++ more)

-- the loop over the messages of a packet; `is_error` says that the packet is bounced.
unfoldable pub take_messages :
    (Bytes → Option JsonObject)
    → (is_error : Bool) → AppSession
    → List (OsrfMessage × Sending)
    → Option Resent
unfolding as_redirect do_client resend
take_messages json_parse is_error session [] = some (session, [])
take_messages json_parse is_error session ((msg, p) ∷ msgs) =
    elim (is_error && same_bytes session.remote_id session.orig_remote_id) [
      | true ↦ some (record session { transport_error = true }, [])
      | false ↦
          elim (and_resend p
            (do_client json_parse session (if is_error then as_redirect msg else msg))) [
              | none ↦ none
              | some (s, sent) ↦ with_sent sent (take_messages json_parse is_error s msgs)
            ]
    ]

-- `osrf_stack_transport_handler` from the sender's address on
unfoldable pub transport_handler :
    (Bytes → Option JsonObject)
    → (is_error : Bool) → (sender : Bytes) → AppSession
    → List (OsrfMessage × Sending)
    → Option Resent
unfolding take_messages set_remote
transport_handler json_parse is_error sender session msgs =
    take_messages json_parse is_error (set_remote session sender) msgs

-- Requests were sent only where they may go from the session.
abbrev pub AllAllowed : AppSession → List (OsrfMessage × Bytes) → Type 0
AllAllowed s [] = Unit
AllAllowed s ((msg, to) ∷ sent) = IsAllowed s to × AllAllowed s sent

abbrev pub SendsAllowed : Option Resent → Type 0
SendsAllowed none = Unit
SendsAllowed (some (s, sent)) = AllAllowed s sent

-- whether a request that is to be sent again is a message that needs a connection
abbrev pub asks : Option OsrfMessage → Bool
asks none = true
asks (some msg) = needs_connection msg.m_type
