-- ===== src/Stack/Tests.antt =====
-- Runs of a server's answer that a client takes in, in src/libopensrf/osrf_app_session.c and
-- src/libopensrf/osrf_stack.c.
use open_srf.Prelude.{
  ℕ, suc, true, ◌*◌, ◌/◌, ◌≡◌, refl, false, Option, none, some, [], ◌∷◌, arith, length, replicate,
  length-replicate, Bytes,
}
use open_srf.JsonObject.{JsonObject, new_object}
use open_srf.OsrfMessage.{request, osrf_message_init}
use open_srf.AppSession.{
  AppRequest, AppSession, client_init, app_request_init, find_app_request, add_app_request,
}
use open_srf.AppSession.Responses.{Holds, none_yet}
use open_srf.AppSession.Serving.{respond_complete}
use open_srf.AppSession.Making.{Call, request_message, next_trace, make_request}
use open_srf.AppSession.Requests.{IsTable, client_init-IsTable}
use open_srf.AppSession.Waiting.{Wait, send_batch}
use open_srf.Stack.Calls.{IsServed, make_request-IsServed}
use open_srf.Stack.{do_client_all, lose_remote}
use open_srf.Stack.Packets.{Sending, resend}
use open_srf.AppSession.{connected}
use open_srf.AppSession.Queue.{request_resend}
use open_srf.Stack.Placed.{IsAt}
use open_srf.Stack.Answers.{together, IsAnswered, respond_complete-IsAnswered}

abbrev asked : AppRequest
asked = app_request_init (osrf_message_init request 1 1)

abbrev client : AppSession
client = add_app_request (client_init (b'r' ∷ []) (b's' ∷ []) false) asked

-- The first request of a session is found at the first address.
asked-IsAt : IsAt client 1 0 asked
unfolding find_app_request add_app_request client_init app_request_init osrf_message_init
asked-IsAt = record { is_found = refl; is_here = refl }

asked-Holds : Holds [] asked.part_response_buffer
unfolding app_request_init
asked-Holds = none_yet refl

-- every text as a JSON string
abbrev parse : Bytes → Option JsonObject
parse json = some (new_object (some json))

-- the text escapes nothing, and the product is rounded down
abbrev nothing_escaped : Bytes → ℕ
nothing_escaped s = 0

abbrev scale : ℕ → ℕ → ℕ
scale raw_size data_size = raw_size * 51200 / data_size

-- a text of so many zeros
unfoldable zeros : ℕ → Bytes
zeros n = replicate n b'0'

length-zeros : (n : ℕ) → length (zeros n) ≡ n
unfolding zeros
length-zeros n = length-replicate n b'0'

respond_complete-IsAnswered_example : IsAnswered parse 1 0 asked (zeros 100000) (
    do_client_all parse client
      (together (respond_complete parse nothing_escaped scale 1 (some (zeros 100000)))))
respond_complete-IsAnswered_example =
    respond_complete-IsAnswered parse nothing_escaped scale client 1 0 asked (zeros 100000)
      asked-IsAt asked-Holds (omega (arith, length-zeros 100000))

-- a stateless session, which has sent its first request
abbrev stateless : AppSession
stateless = client_init (b'r' ∷ []) (b's' ∷ []) true

abbrev sent : AppSession
sent = record stateless { thread_trace = 1 }

sent-IsTable : IsTable sent
sent-IsTable =
    let v = client_init-IsTable (b'r' ∷ []) (b's' ∷ []) true in
    record { sized = v.sized; hashed = v.hashed; linked = v.linked }

sends_test :
    send_batch (λ s. s) (λ s. s) [] 0 (next_trace stateless) request ≡ some (sent, some (b'r' ∷ []))
unfolding send_batch next_trace client_init
sends_test = refl

abbrev ask : Call
ask = record {
  session_locale = none;
  session_tz = none;
  current_ingress = none;
  method_name = b'm' ∷ [];
  params = none;
  protocol = 1;
}

make_request-IsServed_example :
    let id = suc stateless.thread_trace in
    let made = add_app_request sent (app_request_init (request_message ask id)) in
    (make_request (λ s. s) (λ s. s) [] 0 ask stateless ≡ some (made, some id))
    × IsTable made
    × IsServed parse id (length sent.requests) (zeros 100000) (
        do_client_all parse made
          (together (respond_complete parse nothing_escaped scale id (some (zeros 100000)))))
make_request-IsServed_example =
    make_request-IsServed parse nothing_escaped scale (λ s. s) (λ s. s) [] 0 ask stateless sent
      (b'r' ∷ []) (zeros 100000) sends_test sent-IsTable (omega (arith, length-zeros 100000))

-- The session is connected by the first wait for the answer.
abbrev connects : Sending
connects =
    let answer : Wait = record { effect = λ s. record s { state = connected }; now = 1 } in
    record { wait = λ s. s; wait_connect = λ s. s; waits = answer ∷ answer ∷ []; start = 0 }

-- A packet from a server bounces: the client connects at the first address and asks again.
resend_test :
    resend connects (lose_remote client) (request_resend (lose_remote client) 1)
    ≡ some (record client { state = connected }, (osrf_message_init request 1 1, b'r' ∷ []) ∷ [])
unfolding resend send_batch lose_remote request_resend add_app_request client_init app_request_init
    osrf_message_init find_app_request
resend_test = refl
