-- ===== src/AppSession/Making.antt =====
-- How a client makes a request, in `osrfAppSessionMakeLocaleRequest` of
-- src/libopensrf/osrf_app_session.c, whose arguments `param_strings` and `locale` are always NULL. The
-- locale and the time zone of the session, and the ingress, are arguments.
pub mod Found
use open_srf.Prelude.{ℕ, suc, Option, none, some, List, Bytes}
use open_srf.JsonObject.{JsonObject}
use open_srf.OsrfMessage.{
  OsrfMessage, request, osrf_message_init, osrf_message_set_locale, osrf_message_set_tz,
  osrf_message_set_ingress, osrf_message_set_method, osrf_message_set_params,
}
use open_srf.AppSession.{AppSession, app_request_init, add_app_request}
use open_srf.AppSession.Serving.{codes}
use open_srf.AppSession.Waiting.{Wait, send_batch}

-- what a request is made of, beside the session
pub record Call : Type 0 where
  pub session_locale : Option Bytes
  pub session_tz : Option Bytes
  pub current_ingress : Option Bytes
  pub method_name : Bytes
  pub params : Option JsonObject
  pub protocol : ℕ

-- the ingress, which is "opensrf" if none has been set
unfoldable pub ingress_of : Option Bytes → Bytes
ingress_of none = codes "opensrf"
ingress_of (some ingress) = ingress

-- the REQUEST message
unfoldable pub request_message : Call → (thread_trace : ℕ) → OsrfMessage
unfolding ingress_of
request_message call thread_trace =
    let req_msg = osrf_message_init request thread_trace call.protocol in
    let named = osrf_message_set_method req_msg (some call.method_name) in
    let local =
      osrf_message_set_tz (osrf_message_set_locale named call.session_locale) call.session_tz in
    osrf_message_set_params
      (osrf_message_set_ingress local (some (ingress_of call.current_ingress))) call.params

-- `++(session->thread_trace)`
unfoldable pub next_trace : AppSession → AppSession
next_trace session = record session { thread_trace = suc session.thread_trace }

abbrev pub keep_request :
    OsrfMessage → Option (AppSession × Option Bytes) → Option (AppSession × Option ℕ)
keep_request msg none = none
keep_request msg (some (s, none)) = some (s, none)
keep_request msg (some (s, some to)) =
    some (add_app_request s (app_request_init msg), some msg.thread_trace)

-- `osrfAppSessionMakeLocaleRequest`: the session, and the id of the request or `none` for -1
unfoldable pub make_request :
    (wait wait_connect : AppSession → AppSession)
    → List Wait
    → (start : ℕ) → Call
    → AppSession
    → Option (AppSession × Option ℕ)
unfolding request_message next_trace
make_request wait wait_connect waits start call session =
    let counted = next_trace session in
    let req_msg = request_message call counted.thread_trace in
    keep_request req_msg (send_batch wait wait_connect waits start counted request)
