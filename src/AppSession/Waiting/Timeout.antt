-- ===== src/AppSession/Waiting/Timeout.antt =====
-- How long `_osrf_app_request_recv` of src/libopensrf/osrf_app_session.c waits, when messages for other
-- requests wake it every second.
use open_srf.Prelude.{
  ℕ, zero, suc, ◌+◌, ◌-◌, ◌*◌, ◌<◌, ◌≡◌, refl, false, none, some, List, [], ◌∷◌, arith, inl, inr,
  ltb, Bool-cases,
}
use open_srf.AppSession.{AppRequest}
use open_srf.AppSession.Waiting.{
  RequestWait, Round, dequeue, look, lower, time_left, recv_from, request_recv,
}

-- a request that waits for its response
abbrev pub idle : AppRequest → AppRequest
idle req = record req { result = []; complete = false; reset_timeout = false }

-- a wait in which nothing comes for the request
abbrev pub nothing_comes : RequestWait
nothing_comes req = (req, false)

-- rounds that end at the second `j` after the start, at the next one, and so on
abbrev pub each_second : (start j n : ℕ) → List Round
each_second start j zero = []
each_second start j (suc n) =
    record { first = nothing_comes; second = nothing_comes; now = start + j }
    ∷ each_second start (suc j) n

-- what the rounds take off the time that is left
abbrev taken_off : (j n : ℕ) → ℕ
taken_off j zero = 0
taken_off j (suc n) = j + taken_off (suc j) n

taken_off_lem : (j n : ℕ) → 2 * taken_off j n + n ≡ n * n + 2 * (j * n)
taken_off_lem j zero = omega arith
taken_off_lem j (suc n) = let ih = taken_off_lem (suc j) n in grind arith

recv_from-none :
    (rounds : List Round) (timeout start : ℕ) (req : AppRequest)
    → recv_from rounds timeout start none req ≡ some (req, none)
unfolding recv_from
recv_from-none [] timeout start req = refl
recv_from-none (r ∷ rounds) timeout start req = refl

recv_from-each_second :
    (j n timeout start remaining : ℕ) (req : AppRequest)
    → remaining < taken_off j n
    → recv_from (each_second start j n) timeout start (some remaining) (idle req)
      ≡ some (idle req, none)
unfolding recv_from look dequeue time_left lower
recv_from-each_second j zero timeout start remaining req h = ground arith
recv_from-each_second j (suc n) timeout start remaining req h =
    let e : start + j - start ≡ j = omega arith in
    elim (Bool-cases (ltb remaining j)) [
      | inl t ↦ rw (e, t) (recv_from-none (each_second start (suc j) n) timeout start (idle req))
      | inr t ↦
          rw (e, t)
            (recv_from-each_second (suc j) n timeout start (remaining - j) req (ground arith))
    ]

-- When nothing comes for a request, and other messages end every wait after one second, then
-- `_osrf_app_request_recv` gives up within n seconds if n * (n + 1) is above twice the timeout.
pub request_recv-each_second :
    (n timeout start : ℕ) (req : AppRequest)
    → 2 * timeout < n * suc n
    → request_recv (each_second start 1 n) timeout start (idle req) ≡ some (idle req, none)
unfolding request_recv
request_recv-each_second n timeout start req h =
    let e = taken_off_lem 1 n in recv_from-each_second 1 n timeout start timeout req (grind arith)
