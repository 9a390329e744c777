-- ===== src/AppSession/Adding.antt =====
-- `add_app_request` of src/libopensrf/osrf_app_session.c, and what becomes of a request when an older
-- one of its bucket is finished.
use open_srf.Prelude.{
  ℕ, zero, suc, ◌+◌, ◌<◌, ◌≡◌, refl, sym, ap, subst, ◌∙◌, ◌⊎◌, inl, inr, true, false, Option, none,
  some, List, [], ◌∷◌, ◌++◌, arith, ◌==◌, if◌then◌else◌, length, length-append, length-set,
  get_elem?, get_elem?-concat, get_or, Bool-cases, Option-cases, ==_iff, is_some,
}
use open_srf.AppSession.{
  AppRequest, AppSession, request_id_hash, find_app_request, add_app_request, request_finish,
}
use open_srf.AppSession.Requests.{
  Below, Below-weaken, AreLinked, IsTable, ids, ids-none, ids-some, ids_fuel, bucket, has_id,
  behind, Search, missing, found, lt_of_get_elem?,
}
use open_srf.AppSession.Finishing.{
  find_app_request-Search, get_or-hash, Below-if, forget, request_finish-IsTable,
}

module _ (rs : List AppRequest) (x : AppRequest) where
  get_elem?-old : (a : ℕ) → a < length rs → get_elem? (rs ++ x ∷ []) a ≡ get_elem? rs a
  get_elem?-old a l = get_elem?-concat rs x a ∙ ground arith

  get_elem?-new :
      (a : ℕ) {req : AppRequest}
      → get_elem? (rs ++ x ∷ []) a ≡ some req
      → (get_elem? rs a ≡ some req) ⊎ ((length rs ≡ a) × (x ≡ req))
  get_elem?-new a e =
      let z = get_elem?-concat rs x a in
      elim (Bool-cases (length rs == a)) [
        | inl t ↦ inr (ground arith, ground arith)
        | inr t ↦ inl (ground arith)
      ]

  -- Older requests lead to the same ids.
  ids-concat :
      (n : ℕ) (o : Option ℕ)
      → AreLinked rs
      → Below (length rs) o
      → ids n (rs ++ x ∷ []) o ≡ ids n rs o
  unfolding ids
  ids-concat zero o v b = refl
  ids-concat (suc n) none v b = refl
  ids-concat (suc n) (some a) v b = elim (Option-cases (get_elem? rs a)) [
    | inl e ↦ ids-none n (rs ++ x ∷ []) a (get_elem?-old a b ∙ e) ∙ sym (ids-none n rs a e)
    | inr (req, e) ↦
        ids-some n (rs ++ x ∷ []) a req (get_elem?-old a b ∙ e)
        ∙ ap (λ z. req.request_id ∷ z)
            (ids-concat n req.next v (
              Below-weaken a (length rs) req.next (omega (arith, lt_of_get_elem? rs a e))
                (v.ordered a req e)))
        ∙ sym (ids-some n rs a req e)
  ]

  AreLinked-concat :
      AreLinked rs → x.prev ≡ none → Below (length rs) x.next → AreLinked (rs ++ x ∷ [])
  AreLinked-concat v p b = record {
    unlinked = λ a req e. elim (get_elem?-new a e) [
      | inl old ↦ v.unlinked a req old
      | inr (l, same) ↦ ap (λ r. r.prev) (sym same) ∙ p
    ];
    ordered = λ a req e. elim (get_elem?-new a e) [
      | inl old ↦ v.ordered a req old
      | inr (l, same) ↦ subst (λ r. Below a r.next) same (subst (λ k. Below k x.next) l b)
    ];
  }

module _ (s : AppSession) (req : AppRequest) (v : IsTable s) where
  -- the request as it is stored
  abbrev pub stored : AppRequest
  stored = record req {
    next = get_or s.request_hash (request_id_hash req.request_id) none;
    prev = none;
  }

  pub add-hash :
      (b : ℕ)
      → get_or (add_app_request s req).request_hash b none ≡ (
          if request_id_hash req.request_id == b
          then some (length s.requests)
          else get_or s.request_hash b none)
  unfolding add_app_request
  add-hash b = get_or-hash s req.request_id b (some (length s.requests)) v

  pub length-add : length (add_app_request s req).requests ≡ length s.requests + 1
  unfolding add_app_request
  length-add = length-append s.requests (stored ∷ [])

  add-IsTable : IsTable (add_app_request s req)
  unfolding add_app_request
  add-IsTable = record {
    sized = length-set s.request_hash _ _ ∙ v.sized;
    hashed = λ b.
        let n = length s.requests in
        subst (Below (length (add_app_request s req).requests)) (sym (add-hash b)) (
          Below-if _ (request_id_hash req.request_id == b) (some n) _ (omega (arith, length-add))
            (Below-weaken n _ _ (omega (arith, length-add)) (v.hashed b)));
    linked = AreLinked-concat s.requests stored v.linked refl (v.hashed _);
  }

module _ (s : AppSession) (req : AppRequest) (v : IsTable s) where
  bucket-add_self :
      bucket (add_app_request s req) (request_id_hash req.request_id)
      ≡ req.request_id ∷ bucket s (request_id_hash req.request_id)
  unfolding bucket
  bucket-add_self =
      let b = request_id_hash req.request_id in
      let n = length s.requests in
      let s' = add_app_request s req in
      let head : get_or s'.request_hash b none ≡ some n = add-hash s req v b ∙ ground arith in
      let rs' = s.requests ++ stored s req v ∷ [] in
      let same : s'.requests ≡ rs' = unfold add_app_request in refl in
      let size : length s'.requests + 1 ≡ suc (n + 1) = omega (arith, length-add s req v) in
      let here : get_elem? rs' n ≡ some (stored s req v) =
        get_elem?-concat s.requests (stored s req v) n ∙ ground arith in
      ap (λ k. ids k s'.requests (get_or s'.request_hash b none)) size
      ∙ ap (ids (suc (n + 1)) s'.requests) head
      ∙ ap (λ rs. ids (suc (n + 1)) rs (some n)) same
      ∙ ids-some (n + 1) rs' n (stored s req v) here
      ∙ ap (λ z. req.request_id ∷ z)
          (ids-concat s.requests (stored s req v) (n + 1) _ v.linked (v.hashed b))

  bucket-add_ne :
      (b : ℕ)
      → (request_id_hash req.request_id == b) ≡ false
      → bucket (add_app_request s req) b ≡ bucket s b
  unfolding bucket
  bucket-add_ne b e =
      let n = length s.requests in
      let s' = add_app_request s req in
      let o = get_or s.request_hash b none in
      let head : get_or s'.request_hash b none ≡ o = add-hash s req v b ∙ rw e refl in
      let same : s'.requests ≡ s.requests ++ stored s req v ∷ [] = unfold add_app_request in refl in
      let more = length s'.requests + 1 in
      ap (ids more s'.requests) head
      ∙ ap (λ rs. ids more rs o) same
      ∙ ids-concat s.requests (stored s req v) more o v.linked (v.hashed b)
      ∙ ids_fuel more (n + 1) s.requests o v.linked
          (Below-weaken n more o (omega (arith, length-add s req v)) (v.hashed b))
          (Below-weaken n (n + 1) o (omega arith) (v.hashed b))

-- On a valid table `add_app_request` leaves a valid table, in which the request's bucket starts with its
-- id and goes on as before, and every other bucket is as before.
pub add_app_request-IsTable :
    (s : AppSession) (req : AppRequest)
    → IsTable s
    → IsTable (add_app_request s req)
      × ((b : ℕ)
          → bucket (add_app_request s req) b ≡ (
              if request_id_hash req.request_id == b
              then req.request_id ∷ bucket s b
              else bucket s b))
add_app_request-IsTable s req v = (
  add-IsTable s req v,
  λ b. elim (Bool-cases (request_id_hash req.request_id == b)) [
    | inl t ↦
        let same = (==_iff (request_id_hash req.request_id) b).0 t in
        rw t (
          subst (λ k. bucket (add_app_request s req) k ≡ req.request_id ∷ bucket s k) same
            (bucket-add_self s req v))
    | inr t ↦ rw t (bucket-add_ne s req v b t)
  ],
)

is_some-Search :
    {rs : List AppRequest} {id : ℕ} {xs : List ℕ} {o : Option ℕ}
    → Search rs id xs o
    → is_some o ≡ has_id id xs
is_some-Search (missing h) = sym h
is_some-Search (found a req g h l) = sym h

-- On a valid table `find_app_request` finds a request exactly if its bucket holds the id.
pub is_some-find_app_request :
    (s : AppSession) (id : ℕ)
    → IsTable s
    → is_some (find_app_request s id) ≡ has_id id (bucket s (request_id_hash id))
is_some-find_app_request s id v = is_some-Search (find_app_request-Search s id v)

forget-pair : (x y : ℕ) (xs : List ℕ) → (y == x) ≡ false → forget x (y ∷ x ∷ xs) ≡ xs
unfolding has_id behind
forget-pair x y xs e = let z : (x == x) ≡ true = ground arith in rw e (rw z refl)

has_id_head : (x : ℕ) (xs : List ℕ) → has_id x (x ∷ xs) ≡ true
unfolding has_id
has_id_head x xs = let z : (x == x) ≡ true = ground arith in rw z refl

none_of_is_some : (o : Option ℕ) → is_some o ≡ false → o ≡ none
none_of_is_some none e = refl
none_of_is_some (some a) e = cc

-- When two requests with different ids of one bucket have been added to a valid table that does not have
-- the second id, and the older one is finished, `find_app_request` no longer finds the newer one.
pub find_app_request-request_finish :
    (s : AppSession) (old new : AppRequest)
    → IsTable s
    → request_id_hash old.request_id ≡ request_id_hash new.request_id
    → (new.request_id == old.request_id) ≡ false
    → has_id new.request_id (bucket s (request_id_hash new.request_id)) ≡ false
    → let both = add_app_request (add_app_request s old) new in
      (is_some (find_app_request both new.request_id) ≡ true)
      × (find_app_request (request_finish both old.request_id) new.request_id ≡ none)
find_app_request-request_finish s old new v h e f =
    let one = add_app_request s old in
    let (w, first) = add_app_request-IsTable s old v in
    let both = add_app_request one new in
    let (u, second) = add_app_request-IsTable one new w in
    let (t, last) = request_finish-IsTable both old.request_id u in
    let b = request_id_hash new.request_id in
    let here : (b == b) ≡ true = ground arith in
    let old_here : (request_id_hash old.request_id == b) ≡ true = ground arith in
    let one_b : bucket one b ≡ old.request_id ∷ bucket s b = first b ∙ rw old_here refl in
    let both_b : bucket both b ≡ new.request_id ∷ old.request_id ∷ bucket s b =
      second b ∙ rw here (ap (λ z. new.request_id ∷ z) one_b) in
    let left : bucket (request_finish both old.request_id) b ≡ bucket s b =
      last b
      ∙ rw old_here (
          ap (forget old.request_id) both_b
          ∙ forget-pair old.request_id new.request_id (bucket s b) e) in
    (
      is_some-find_app_request both new.request_id u
          ∙ ap (has_id new.request_id) both_b
          ∙ has_id_head new.request_id (old.request_id ∷ bucket s b),
      none_of_is_some _ (
          is_some-find_app_request (request_finish both old.request_id) new.request_id t
          ∙ ap (has_id new.request_id) left
          ∙ f),
    )
