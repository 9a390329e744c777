-- ===== src/Stack/Calls.antt =====
-- A request of a client from its making in src/libopensrf/osrf_app_session.c to its result.
use open_srf.Prelude.{
  ℕ, suc, ◌<◌, ◌≡◌, refl, ap, subst, ◌∙◌, true, Option, some, List, [], ◌∷◌, ◌++◌, length, Bytes,
}
use open_srf.GrowingBuffer.{buffer_max_size}
use open_srf.JsonObject.{JsonObject}
use open_srf.OsrfMessage.{OsrfMessage, request}
use open_srf.AppSession.{
  AppRequest, AppSession, app_request_init, add_app_request, find_app_request,
}
use open_srf.AppSession.Adding.{stored, add_app_request-IsTable}
use open_srf.AppSession.Collected.{IsAnswer}
use open_srf.AppSession.Making.{Call, request_message, next_trace, keep_request, make_request}
use open_srf.AppSession.Making.Found.{
  get_elem?-added, find_app_request-added, thread_trace-request_message,
}
use open_srf.AppSession.Requests.{IsTable}
use open_srf.AppSession.Responses.{Holds, none_yet}
use open_srf.AppSession.Serving.{respond_complete}
use open_srf.AppSession.Waiting.{Wait, Round, send_batch, request_recv}
use open_srf.Stack.{do_client_all}
use open_srf.Stack.Answers.{together, IsAnswered, respond_complete-IsAnswered}
use open_srf.Stack.Placed.{IsAt}

-- what the caller gets: the client has taken the answer in, and then a call of `_osrf_app_request_recv` gives
-- at once the result and leaves none
pub record IsServed (json_parse : Bytes → Option JsonObject) (id a : ℕ) (json : Bytes)
    (o : Option AppSession) : Type 0 where
  pub session : AppSession
  pub request : AppRequest
  pub answer : OsrfMessage
  pub taken_in : o ≡ some session
  pub at : IsAt session id a request
  pub is_complete : request.complete ≡ true
  pub received :
      (rounds : List Round) (timeout start : ℕ)
      → request_recv rounds timeout start request
        ≡ some (record request { result = [] }, some answer)
  pub is_answer : IsAnswer json_parse json answer

request_recv-one :
    (rounds : List Round) (timeout start : ℕ) (req : AppRequest) (answer : OsrfMessage)
    → req.result ≡ answer ∷ []
    → request_recv rounds timeout start req ≡ some (record req { result = [] }, some answer)
unfolding request_recv
request_recv-one rounds timeout start req answer e = rw e refl

IsAnswered-IsServed :
    (json_parse : Bytes → Option JsonObject) (id a : ℕ) (req : AppRequest) (json : Bytes)
    (o : Option AppSession)
    → req.result ≡ []
    → IsAnswered json_parse id a req json o
    → IsServed json_parse id a json o
IsAnswered-IsServed json_parse id a req json o e w = record {
  session = w.session;
  request = w.request;
  answer = w.answer;
  taken_in = w.taken_in;
  at = w.at;
  is_complete = w.is_complete;
  received = λ rounds timeout start.
      request_recv-one rounds timeout start w.request w.answer
        (w.queued ∙ ap (λ z. z ++ w.answer ∷ []) e);
  is_answer = w.is_answer;
}

make_request-some :
    (wait wait_connect : AppSession → AppSession) (waits : List Wait) (start : ℕ) (call : Call)
    (session s : AppSession) (to : Bytes)
    → send_batch wait wait_connect waits start (next_trace session) request ≡ some (s, some to)
    → let msg = request_message call (suc session.thread_trace) in
      make_request wait wait_connect waits start call session
      ≡ some (add_app_request s (app_request_init msg), some (suc session.thread_trace))
unfolding make_request next_trace
make_request-some wait wait_connect waits start call session s to e =
    let msg = request_message call (suc session.thread_trace) in
    ap (keep_request msg) e
    ∙ ap (λ n. some (add_app_request s (app_request_init msg), some n))
        (thread_trace-request_message call (suc session.thread_trace))

new_request :
    (msg : OsrfMessage)
    → ((app_request_init msg).result ≡ []) × Holds [] (app_request_init msg).part_response_buffer
unfolding app_request_init
new_request msg = (refl, none_yet refl)

made-IsAt :
    (s : AppSession) (msg : OsrfMessage) (v : IsTable s) (id : ℕ)
    → msg.thread_trace ≡ id
    → IsAt
        (add_app_request s (app_request_init msg))
        id
        (length s.requests)
        (stored s (app_request_init msg) v)
unfolding app_request_init
made-IsAt s msg v id e = record {
  is_found =
      subst
        (λ k.
          find_app_request (add_app_request s (app_request_init msg)) k ≡ some (length s.requests))
        e (find_app_request-added s (app_request_init msg) v);
  is_here = get_elem?-added s (app_request_init msg) v;
}

-- If `osrfAppSessionMakeLocaleRequest` can send its message and the table of requests is then valid, it
-- returns the next thread trace as the id of the request, and the table with the request is valid. When the
-- session takes in the messages by which `osrfAppRequestRespondComplete` answers that id with a JSON text
-- shorter than BUFFER_MAX_SIZE, whatever the sizes of the chunks, the request is complete, and
-- `_osrf_app_request_recv` then gives at once one result, whose content is what the JSON parser makes of
-- the whole text, and leaves none.
pub make_request-IsServed :
    (json_parse : Bytes → Option JsonObject) (escaping_length : Bytes → ℕ) (scaled : ℕ → ℕ → ℕ)
    (wait wait_connect : AppSession → AppSession) (waits : List Wait) (start : ℕ) (call : Call)
    (session s : AppSession) (to json : Bytes)
    → send_batch wait wait_connect waits start (next_trace session) request ≡ some (s, some to)
    → IsTable s
    → length json < buffer_max_size
    → let id = suc session.thread_trace in
      let made = add_app_request s (app_request_init (request_message call id)) in
      (make_request wait wait_connect waits start call session ≡ some (made, some id))
      × IsTable made
      × IsServed json_parse id (length s.requests) json (
          do_client_all json_parse made
            (together (respond_complete json_parse escaping_length scaled id (some json))))
make_request-IsServed json_parse escaping_length scaled wait wait_connect waits start call session s
      to json e v l =
    let id = suc session.thread_trace in
    let msg = request_message call id in
    let made = add_app_request s (app_request_init msg) in
    let req = stored s (app_request_init msg) v in
    let (none_before, nothing_kept) = new_request msg in
    (
      make_request-some wait wait_connect waits start call session s to e,
      (add_app_request-IsTable s (app_request_init msg) v).0,
      IsAnswered-IsServed json_parse id (length s.requests) req json _ none_before (
          respond_complete-IsAnswered json_parse escaping_length scaled made id (length s.requests)
            req json (made-IsAt s msg v id (thread_trace-request_message call id)) nothing_kept l),
    )
