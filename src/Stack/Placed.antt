-- ===== src/Stack/Placed.antt =====
-- A request of a session of src/libopensrf/osrf_app_session.c that is found at an address stays found when
-- the session writes to it.
use open_srf.Prelude.{
  ℕ, zero, suc, ◌+◌, ◌≡◌, ◌≢◌, refl, sym, ap, subst, ◌∙◌, inl, inr, true, Option, none, some, List,
  [], ◌∷◌, arith, ◌==◌, if◌then◌else◌, length, length-set, get_elem?, get_or, set, Bool-cases,
  Option-cases, ==_iff,
}
use open_srf.AppSession.{
  AppRequest, AppSession, request_id_hash, find_from, find_app_request, write_request,
}
use open_srf.AppSession.Requests.{find-none, find-some}
use open_srf.AppSession.Queue.{change_request, set_complete}

-- The request with this id is found at this address.
pub record IsAt (s : AppSession) (id a : ℕ) (req : AppRequest) : Type 0 where
  pub is_found : find_app_request s id ≡ some a
  pub is_here : get_elem? s.requests a ≡ some req

get_elem?-set_self :
    (rs : List AppRequest) (a : ℕ) {req : AppRequest} (req' : AppRequest)
    → get_elem? rs a ≡ some req
    → get_elem? (set rs a req') a ≡ some req'
get_elem?-set_self [] a req' e = cc
get_elem?-set_self (r ∷ rs) zero req' e = refl
get_elem?-set_self (r ∷ rs) (suc a) req' e = get_elem?-set_self rs a req' e

get_elem?-set_ne :
    (rs : List AppRequest) (a b : ℕ) (req : AppRequest)
    → a ≢ b
    → get_elem? (set rs a req) b ≡ get_elem? rs b
get_elem?-set_ne [] a b req h = refl
get_elem?-set_ne (r ∷ rs) zero zero req h = absurd (h refl)
get_elem?-set_ne (r ∷ rs) zero (suc b) req h = refl
get_elem?-set_ne (r ∷ rs) (suc a) zero req h = refl
get_elem?-set_ne (r ∷ rs) (suc a) (suc b) req h = get_elem?-set_ne rs a b req (λ e. h (ap suc e))

module _ (rs : List AppRequest) (a : ℕ) (req req' : AppRequest) (g : get_elem? rs a ≡ some req)
    (same_id : req'.request_id ≡ req.request_id) (same_next : req'.next ≡ req.next) where
  -- The links decide what is found.
  find_from-set :
      (n : ℕ) (o : Option ℕ) (id : ℕ) → find_from n (set rs a req') o id ≡ find_from n rs o id
  unfolding find_from
  find_from-set zero o id = refl
  find_from-set (suc n) none id = refl
  find_from-set (suc n) (some b) id = elim (Bool-cases (a == b)) [
    | inl t ↦
        let here = (==_iff a b).0 t in
        subst
          (λ k. find_from (suc n) (set rs a req') (some k) id ≡ find_from (suc n) rs (some k) id)
          here
          (find-some n (set rs a req') a id req' (get_elem?-set_self rs a req' g)
            ∙ ap (λ k. if k == id then some a else find_from n (set rs a req') req'.next id) same_id
            ∙ ap (λ o. if req.request_id == id then some a else find_from n (set rs a req') o id)
                same_next
            ∙ ap (λ o. if req.request_id == id then some a else o) (find_from-set n req.next id)
            ∙ sym (find-some n rs a id req g))
    | inr t ↦
        let other = get_elem?-set_ne rs a b req' (ground arith) in
        elim (Option-cases (get_elem? rs b)) [
          | inl e ↦ find-none n (set rs a req') b id (other ∙ e) ∙ sym (find-none n rs b id e)
          | inr (r, e) ↦
              find-some n (set rs a req') b id r (other ∙ e)
              ∙ ap (λ o. if r.request_id == id then some b else o) (find_from-set n r.next id)
              ∙ sym (find-some n rs b id r e)
        ]
  ]

-- the session with another request at the address
abbrev pub replaced : AppSession → ℕ → AppRequest → AppSession
replaced s a req = record s { requests = set s.requests a req }

pub replaced-IsAt :
    {s : AppSession} {id a : ℕ} {req : AppRequest} (req' : AppRequest)
    → IsAt s id a req
    → req'.request_id ≡ req.request_id
    → req'.next ≡ req.next
    → IsAt (replaced s a req') id a req'
unfolding find_app_request
replaced-IsAt {s} {id} {a} {req} req' v i n = record {
  is_found =
      ap
        (λ k.
          find_from (k + 1) (set s.requests a req')
            (get_or s.request_hash (request_id_hash id) none) id)
        (length-set s.requests a req')
      ∙ find_from-set s.requests a req req' v.is_here i n (length s.requests + 1) _ id
      ∙ v.is_found;
  is_here = get_elem?-set_self s.requests a req' v.is_here;
}

pub write_request_lem :
    (f : AppRequest → AppRequest) (rs : List AppRequest) (a : ℕ) (req : AppRequest)
    → get_elem? rs a ≡ some req
    → write_request f rs (some a) ≡ set rs a (f req)
unfolding write_request
write_request_lem f rs a req e = rw (e, write_request) refl

pub set_complete_lem :
    {s : AppSession} {id a : ℕ} {req : AppRequest}
    → IsAt s id a req
    → set_complete s id ≡ replaced s a (record req { complete = true })
unfolding set_complete change_request
set_complete_lem {s} {id} {a} {req} v =
    ap (λ o. record s { requests = write_request (λ r. record r { complete = true }) s.requests o })
      v.is_found
    ∙ ap (λ rs. record s { requests = rs })
        (write_request_lem (λ r. record r { complete = true }) s.requests a req v.is_here)
