-- ===== src/AppSession/Tests.antt =====
-- Runs of the sessions of src/libopensrf/osrf_app_session.c.
use open_srf.Prelude.{
  ℕ, ◌<◌, List, ◌++◌, length, replicate, length-replicate, Bytes, ◌≡◌, refl, false, none, some, [],
  ◌∷◌, arith, ◌==◌,
}
use open_srf.GrowingBuffer.{buffer_max_size}
use open_srf.AppSession.Overflow.{partial_messages, push_all-partial_messages}
use open_srf.AppSession.Responses.{Holds, none_yet, push_all}
use open_srf.AppSession.Serving.{final_message}
use open_srf.OsrfMessage.{request, osrf_message_init}
use open_srf.AppSession.{
  AppRequest, AppSession, client_init, app_request_init, request_id_hash, find_app_request,
  add_app_request, request_finish, connected,
}
use open_srf.AppSession.Requests.{IsTable, bucket, has_id, client_init-IsTable}
use open_srf.AppSession.Finishing.{request_finish-IsTable}
use open_srf.AppSession.Adding.{add_app_request-IsTable, find_app_request-request_finish}
use open_srf.AppSession.Waiting.{Wait, request_recv, send_batch}
use open_srf.AppSession.Waiting.Timeout.{idle, each_second, request_recv-each_second}
use open_srf.AppSession.Waiting.Connecting.{IsAllowed, send_batch-IsAllowed}

abbrev new_session : AppSession
new_session = client_init (b'r' ∷ []) (b's' ∷ []) false

-- requests with the ids 1 and 65, which have the same bucket
abbrev first : AppRequest
first = app_request_init (osrf_message_init request 1 1)

abbrev second : AppRequest
second = app_request_init (osrf_message_init request 65 1)

abbrev one : AppSession
one = add_app_request new_session first

one-IsTable : IsTable one
one-IsTable =
    (add_app_request-IsTable new_session first
      (client_init-IsTable (b'r' ∷ []) (b's' ∷ []) false)).0

bucket_test : bucket (add_app_request one second) 1 ≡ 65 ∷ 1 ∷ []
unfolding bucket add_app_request client_init app_request_init osrf_message_init
bucket_test = refl

add_app_request-IsTable_example : IsTable (add_app_request one second)
add_app_request-IsTable_example = (add_app_request-IsTable one second one-IsTable).0

request_finish-IsTable_example : IsTable (request_finish one 1)
request_finish-IsTable_example = (request_finish-IsTable one 1 one-IsTable).0

same_bucket : request_id_hash first.request_id ≡ request_id_hash second.request_id
unfolding request_id_hash app_request_init osrf_message_init
same_bucket = refl

new_ids :
    ((second.request_id == first.request_id) ≡ false)
    × (has_id second.request_id (bucket new_session (request_id_hash second.request_id)) ≡ false)
unfolding app_request_init osrf_message_init bucket client_init has_id request_id_hash
new_ids = (refl, refl)

find_app_request-request_finish_example :
    find_app_request
      (request_finish (add_app_request one second) first.request_id)
      second.request_id
    ≡ none
find_app_request-request_finish_example =
    (find_app_request-request_finish new_session first second
      (client_init-IsTable (b'r' ∷ []) (b's' ∷ []) false) same_bucket new_ids.0 new_ids.1).1

-- A timeout of 60 seconds ends within 11.
request_recv-each_second_example :
    request_recv (each_second 100 1 11) 60 100 (idle first) ≡ some (idle first, none)
request_recv-each_second_example = request_recv-each_second 11 60 100 first (omega arith)

-- The CONNECT message is answered in the first second.
abbrev answered : Wait
answered = record { effect = λ s. record s { state = connected }; now = 1 }

connects_test :
    send_batch (λ s. s) (λ s. s) (answered ∷ answered ∷ []) 0 new_session request
    ≡ some (record new_session { state = connected }, some (b'r' ∷ []))
unfolding send_batch client_init
connects_test = refl

send_batch-IsAllowed_example : IsAllowed (record new_session { state = connected }) (b'r' ∷ [])
send_batch-IsAllowed_example =
    send_batch-IsAllowed (λ s. s) (λ s. s) (answered ∷ answered ∷ []) 0 new_session request
      (record new_session { state = connected }) (b'r' ∷ []) refl connects_test

unfoldable replicate_zeros : ℕ → Bytes
replicate_zeros n = replicate n b'0'

-- six texts of two million zeros
abbrev zeros : List Bytes
zeros = let t = replicate_zeros 2000000 in t ∷ t ∷ t ∷ t ∷ t ∷ t ∷ []

length-replicate_zeros : (n : ℕ) → length (replicate_zeros n) ≡ n
unfolding replicate_zeros
length-replicate_zeros n = length-replicate n b'0'

first-Holds : Holds [] first.part_response_buffer
unfolding app_request_init
first-Holds = none_yet refl

push_all-partial_messages_example :
    push_all (λ s. none) first (partial_messages 1 zeros ++ final_message 1 ∷ []) ≡ none
push_all-partial_messages_example =
    let n = length-replicate_zeros 2000000 in
    let short : length (replicate_zeros 2000000) < buffer_max_size = omega arith in
    push_all-partial_messages (λ s. none) first 1 zeros first-Holds
      (short, (short, (short, (short, (short, (short, tt)))))) (omega arith)
