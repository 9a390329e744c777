-- ===== src/AppSession/Unlinking.antt =====
-- `osrf_app_session_request_finish` of src/libopensrf/osrf_app_session.c as a change of one bucket.
use open_srf.Prelude.{
  ℕ, zero, suc, ◌≡◌, refl, ap, ◌∙◌, inl, inr, Option, none, some, List, [], ◌∷◌, get_elem?, set,
  Option-cases,
}
use open_srf.AppSession.{
  AppRequest, AppSession, request_id_hash, find_app_request, write_request, unlink_request,
  request_finish,
}
use open_srf.AppSession.Requests.{AreLinked, IsTable}

-- Writing what is there changes nothing.
set_same :
    (rs : List AppRequest) (a : ℕ) (req : AppRequest)
    → get_elem? rs a ≡ some req
    → set rs a req ≡ rs
set_same [] a req e = refl
set_same (r ∷ rs) zero req e = ap (λ z. z ∷ rs) (cc)
set_same (r ∷ rs) (suc a) req e = ap (λ z. r ∷ z) (set_same rs a req e)

no_prev : (req : AppRequest) → req.prev ≡ none → record req { prev = none } ≡ req
no_prev req e = rw (← e) refl

-- No request has a link back, so `osrf_app_session_request_finish` takes none back either.
write_prev :
    (rs : List AppRequest) (o : Option ℕ)
    → AreLinked rs
    → write_request (λ req. record req { prev = none }) rs o ≡ rs
unfolding write_request
write_prev rs none v = refl
write_prev rs (some a) v = elim (Option-cases (get_elem? rs a)) [
  | inl e ↦ rw (e, write_request) refl
  | inr (req, e) ↦
      rw (e, write_request) (ap (set rs a) (no_prev req (v.unlinked a req e)) ∙ set_same rs a req e)
]

pub finish-none : (s : AppSession) (id : ℕ) → find_app_request s id ≡ none → request_finish s id ≡ s
unfolding request_finish
finish-none s id e = rw (e, request_finish) refl

finish-some :
    (s : AppSession) (id a : ℕ) (req : AppRequest)
    → find_app_request s id ≡ some a
    → get_elem? s.requests a ≡ some req
    → request_finish s id ≡ unlink_request s (request_id_hash id) req.next req.prev
unfolding request_finish
finish-some s id a req e g = rw (e, request_finish) (rw (g, request_finish) refl)

-- the request that is found makes its bucket start behind it
pub finish-found :
    (s : AppSession) (id a : ℕ) (req : AppRequest)
    → IsTable s
    → find_app_request s id ≡ some a
    → get_elem? s.requests a ≡ some req
    → request_finish s id
      ≡ record s { request_hash = set s.request_hash (request_id_hash id) req.next }
unfolding unlink_request
finish-found s id a req v e g =
    finish-some s id a req e g
    ∙ ap (unlink_request s (request_id_hash id) req.next) (v.linked.unlinked a req g)
    ∙ ap
        (λ rs. record s {
          request_hash = set s.request_hash (request_id_hash id) req.next;
          requests = rs;
        })
        (write_prev s.requests req.next v.linked)
