-- ===== src/AppSession/Finishing.antt =====
-- `add_app_request` and `osrf_app_session_request_finish` of src/libopensrf/osrf_app_session.c on the
-- buckets of the table of requests.
use open_srf.Prelude.{
  ℕ, ◌+◌, ◌<◌, ◌≡◌, refl, sym, ap, subst, ◌∙◌, inl, inr, Bool, true, false, Option, none, some,
  List, arith, ◌==◌, if◌then◌else◌, length, length-set, get_elem?, get_or, get_or-set_self,
  get_or-set_ne, set, Bool-cases, ==_iff,
}
use open_srf.AppSession.{
  AppRequest, AppSession, request_hash_size, request_id_hash, find_app_request, request_finish,
}
use open_srf.AppSession.Unlinking.{finish-none, finish-found}
use open_srf.AppSession.Requests.{
  Below, Below-weaken, IsTable, ids, bucket, has_id, behind, Search, missing, found,
  find_from-Search, lt_of_get_elem?,
}

pub request_id_hash-lt : (id : ℕ) → request_id_hash id < request_hash_size
unfolding request_id_hash
request_id_hash-lt id = omega arith

pub find_app_request-Search :
    (s : AppSession) (id : ℕ)
    → IsTable s
    → Search s.requests id (bucket s (request_id_hash id)) (find_app_request s id)
unfolding find_app_request bucket
find_app_request-Search s id v =
    let head = get_or s.request_hash (request_id_hash id) none in
    find_from-Search (length s.requests + 1) s.requests head id v.linked (
      Below-weaken (length s.requests) (length s.requests + 1) head (omega arith)
        (v.hashed (request_id_hash id)))

-- reading the table after its bucket has been written
pub get_or-hash :
    (s : AppSession) (id b : ℕ) (o : Option ℕ)
    → IsTable s
    → get_or (set s.request_hash (request_id_hash id) o) b none
      ≡ (if request_id_hash id == b then o else get_or s.request_hash b none)
get_or-hash s id b o v = elim (Bool-cases (request_id_hash id == b)) [
  | inl e ↦
      let same = (==_iff (request_id_hash id) b).0 e in
      rw (e, ← same)
        (get_or-set_self s.request_hash (request_id_hash id) o none
          (omega (arith, v.sized, request_id_hash-lt id)))
  | inr e ↦ rw e (get_or-set_ne s.request_hash (request_id_hash id) b o none (ground arith))
]

pub Below-if :
    (n : ℕ) (t : Bool) (o p : Option ℕ) → Below n o → Below n p → Below n (if t then o else p)
Below-if n true o p b c = b
Below-if n false o p b c = c

module _ (s : AppSession) (id a : ℕ) (req : AppRequest) (v : IsTable s)
    (g : get_elem? s.requests a ≡ some req) where
  -- the table whose bucket starts behind that request
  abbrev finished : AppSession
  finished = record s { request_hash = set s.request_hash (request_id_hash id) req.next }

  finished-IsTable : IsTable finished
  finished-IsTable = record {
    sized = length-set s.request_hash (request_id_hash id) req.next ∙ v.sized;
    hashed = λ b. subst (Below (length s.requests)) (sym (get_or-hash s id b req.next v)) (
        Below-if (length s.requests) (request_id_hash id == b) req.next _
          (Below-weaken a (length s.requests) req.next
            (omega (arith, lt_of_get_elem? s.requests a g)) (v.linked.ordered a req g))
          (v.hashed b));
    linked = v.linked;
  }

  bucket-finished :
      (b : ℕ)
      → bucket finished b ≡ (
          if request_id_hash id == b
          then ids (length s.requests + 1) s.requests req.next
          else bucket s b)
  unfolding bucket
  bucket-finished b = elim (Bool-cases (request_id_hash id == b)) [
    | inl e ↦
        ap (ids (length s.requests + 1) s.requests) (get_or-hash s id b req.next v) ∙ rw e refl
    | inr e ↦
        ap (ids (length s.requests + 1) s.requests) (get_or-hash s id b req.next v) ∙ rw e refl
  ]

-- what a bucket holds after a request is finished
abbrev pub forget : ℕ → List ℕ → List ℕ
forget id xs = if has_id id xs then behind id xs else xs

missing_bucket :
    (s : AppSession) (id b : ℕ)
    → has_id id (bucket s (request_id_hash id)) ≡ false
    → bucket s b ≡ (if request_id_hash id == b then forget id (bucket s b) else bucket s b)
missing_bucket s id b h = elim (Bool-cases (request_id_hash id == b)) [
  | inl t ↦
      let same = (==_iff (request_id_hash id) b).0 t in
      rw (t, subst (λ k. has_id id (bucket s k) ≡ false) same h) refl
  | inr t ↦ rw t refl
]

found_bucket :
    (s : AppSession) (id b : ℕ) (xs : List ℕ)
    → has_id id (bucket s (request_id_hash id)) ≡ true
    → behind id (bucket s (request_id_hash id)) ≡ xs
    → (if request_id_hash id == b then xs else bucket s b)
      ≡ (if request_id_hash id == b then forget id (bucket s b) else bucket s b)
found_bucket s id b xs h l = elim (Bool-cases (request_id_hash id == b)) [
  | inl t ↦
      let same = (==_iff (request_id_hash id) b).0 t in
      rw (t, subst (λ k. has_id id (bucket s k) ≡ true) same h)
        (sym (subst (λ k. behind id (bucket s k) ≡ xs) same l))
  | inr t ↦ rw t refl
]

-- On a valid table `osrf_app_session_request_finish` leaves a valid table, in which the bucket of the
-- request has lost the request and all that were added to the bucket after it, and every other bucket
-- is as before; for an id that the bucket does not hold, it is as before, too.
pub request_finish-IsTable :
    (s : AppSession) (id : ℕ)
    → IsTable s
    → IsTable (request_finish s id)
      × ((b : ℕ)
          → bucket (request_finish s id) b
            ≡ (if request_id_hash id == b then forget id (bucket s b) else bucket s b))
request_finish-IsTable s id v = from (find_app_request s id) refl (find_app_request-Search s id v)
  where
    from :
        (o : Option ℕ)
        → find_app_request s id ≡ o
        → Search s.requests id (bucket s (request_id_hash id)) o
        → IsTable (request_finish s id)
          × ((b : ℕ)
              → bucket (request_finish s id) b
                ≡ (if request_id_hash id == b then forget id (bucket s b) else bucket s b))
    from none e (missing h) = rw (finish-none s id e) (v, λ b. missing_bucket s id b h)
    from (some a) e (found a' req g h l) = rw (finish-found s id a req v e g) (
      finished-IsTable s id a req v g,
      λ b. bucket-finished s id a req v g b ∙ found_bucket s id b _ h l,
    )
