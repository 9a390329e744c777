-- ===== src/AppSession/Making/Found.antt =====
-- The request that `osrfAppSessionMakeLocaleRequest` of src/libopensrf/osrf_app_session.c has made.
use open_srf.Prelude.{
  ℕ, suc, ◌+◌, ◌≡◌, refl, ap, ◌∙◌, true, Option, none, some, arith, ◌==◌, length, get_elem?,
  get_elem?-concat, get_or,
}
use open_srf.OsrfMessage.{
  OsrfMessage, osrf_message_init, osrf_message_set_locale, osrf_message_set_tz,
  osrf_message_set_ingress, osrf_message_set_method, osrf_message_set_params,
}
use open_srf.JsonObject.{JsonObject}
use open_srf.AppSession.{
  AppRequest, AppSession, request_id_hash, find_from, find_app_request, add_app_request,
}
use open_srf.AppSession.Requests.{IsTable, find-some}
use open_srf.AppSession.Adding.{stored, add-hash, length-add}
use open_srf.AppSession.Making.{Call, request_message}

module _ (s : AppSession) (req : AppRequest) (v : IsTable s) where
  pub get_elem?-added :
      get_elem? (add_app_request s req).requests (length s.requests) ≡ some (stored s req v)
  unfolding add_app_request
  get_elem?-added = get_elem?-concat s.requests (stored s req v) (length s.requests) ∙ ground arith

  pub find_app_request-added :
      find_app_request (add_app_request s req) req.request_id ≡ some (length s.requests)
  unfolding find_app_request
  find_app_request-added =
      let s' = add_app_request s req in
      let n = length s.requests in
      let here : (request_id_hash req.request_id == request_id_hash req.request_id) ≡ true =
        ground arith in
      let same : (req.request_id == req.request_id) ≡ true = ground arith in
      let head : get_or s'.request_hash (request_id_hash req.request_id) none ≡ some n =
        add-hash s req v (request_id_hash req.request_id) ∙ rw here refl in
      let size : length s'.requests + 1 ≡ suc (n + 1) = omega (arith, length-add s req v) in
      ap (λ o. find_from (length s'.requests + 1) s'.requests o req.request_id) head
      ∙ ap (λ k. find_from k s'.requests (some n) req.request_id) size
      ∙ find-some (n + 1) s'.requests n req.request_id (stored s req v) get_elem?-added
      ∙ rw same refl

thread_trace-set_params :
    (msg : OsrfMessage) (o : Option JsonObject)
    → (osrf_message_set_params msg o).thread_trace ≡ msg.thread_trace
unfolding osrf_message_set_params
thread_trace-set_params msg none = refl
thread_trace-set_params msg (some o) = refl

pub thread_trace-request_message : (call : Call) (n : ℕ) → (request_message call n).thread_trace ≡ n
unfolding request_message osrf_message_init osrf_message_set_locale osrf_message_set_tz
    osrf_message_set_ingress osrf_message_set_method
thread_trace-request_message call n = thread_trace-set_params _ call.params
