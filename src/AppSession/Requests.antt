-- ===== src/AppSession/Requests.antt =====
-- The table of requests of src/libopensrf/osrf_app_session.c: what its buckets hold after a request is
-- added or finished.
use open_srf.Prelude.{
  ℕ, zero, suc, ◌+◌, ◌<◌, ◌≤◌, ◌≡◌, refl, sym, ap, subst, ◌∙◌, inl, inr, Bool, true, false, Option,
  none, some, List, [], ◌∷◌, ◌||◌, arith, ltb, ◌==◌, if◌then◌else◌, length, get_elem?,
  get_elem?-none, get_or, Bytes, get_or-replicate, Bool-cases, Option-cases,
}
use open_srf.AppSession.{AppRequest, AppSession, request_hash_size, client_init, find_from}

-- a pointer to an address below a bound, or NULL
abbrev pub Below : ℕ → Option ℕ → Type 0
Below n none = Unit
Below n (some a) = a < n

-- Links go to requests that are older, and no request has a link back.
pub record AreLinked (rs : List AppRequest) : Type 0 where
  pub unlinked : (a : ℕ) (req : AppRequest) → get_elem? rs a ≡ some req → req.prev ≡ none
  pub ordered : (a : ℕ) (req : AppRequest) → get_elem? rs a ≡ some req → Below a req.next

pub record IsTable (s : AppSession) : Type 0 where
  pub sized : length s.request_hash ≡ request_hash_size
  pub hashed : (b : ℕ) → Below (length s.requests) (get_or s.request_hash b none)
  pub linked : AreLinked s.requests

-- The table of a new session is valid.
pub client_init-IsTable :
    (target id : Bytes) (stateless : Bool) → IsTable (client_init target id stateless)
unfolding client_init
client_init-IsTable target id stateless = record {
  sized = refl;
  hashed = λ b. subst (Below 0) (sym (get_or-replicate request_hash_size b none)) tt;
  linked = record { unlinked = λ a req e. cc; ordered = λ a req e. absurd (cc) };
}

-- the ids of the requests along a linked list, within so many steps
unfoldable pub ids : ℕ → List AppRequest → Option ℕ → List ℕ
ids zero rs o = []
ids (suc n) rs none = []
ids (suc n) rs (some a) = elim (get_elem? rs a) [
  | none ↦ []
  | some req ↦ req.request_id ∷ ids n rs req.next
]

-- the ids in a bucket, the newest first
unfoldable pub bucket : AppSession → ℕ → List ℕ
unfolding ids
bucket s b = ids (length s.requests + 1) s.requests (get_or s.request_hash b none)

unfoldable pub has_id : ℕ → List ℕ → Bool
has_id id [] = false
has_id id (x ∷ xs) = x == id || has_id id xs

-- what stands behind an id
unfoldable pub behind : ℕ → List ℕ → List ℕ
behind id [] = []
behind id (x ∷ xs) = if x == id then xs else behind id xs

pub Below-weaken : (m n : ℕ) (o : Option ℕ) → m ≤ n → Below m o → Below n o
Below-weaken m n none l b = tt
Below-weaken m n (some a) l b = omega arith

pub lt_of_get_elem? :
    (rs : List AppRequest) (a : ℕ) {req : AppRequest} → get_elem? rs a ≡ some req → a < length rs
lt_of_get_elem? rs a e = elim (Bool-cases (ltb a (length rs))) [
  | inl l ↦ ground arith
  | inr l ↦ absurd (let z = get_elem?-none rs a (ground arith) in cc)
]

pub ids-none :
    (n : ℕ) (rs : List AppRequest) (a : ℕ) → get_elem? rs a ≡ none → ids (suc n) rs (some a) ≡ []
unfolding ids
ids-none n rs a e = rw (e, ids) refl

pub ids-some :
    (n : ℕ) (rs : List AppRequest) (a : ℕ) (req : AppRequest)
    → get_elem? rs a ≡ some req
    → ids (suc n) rs (some a) ≡ req.request_id ∷ ids n rs req.next
unfolding ids
ids-some n rs a req e = rw (e, ids) refl

-- More steps than there are older requests change nothing.
pub ids_fuel :
    (n m : ℕ) (rs : List AppRequest) (o : Option ℕ)
    → AreLinked rs
    → Below n o
    → Below m o
    → ids n rs o ≡ ids m rs o
unfolding ids
ids_fuel zero zero rs o v b c = refl
ids_fuel zero (suc m) rs none v b c = refl
ids_fuel zero (suc m) rs (some a) v b c = absurd (omega arith)
ids_fuel (suc n) zero rs none v b c = refl
ids_fuel (suc n) zero rs (some a) v b c = absurd (omega arith)
ids_fuel (suc n) (suc m) rs none v b c = refl
ids_fuel (suc n) (suc m) rs (some a) v b c = elim (Option-cases (get_elem? rs a)) [
  | inl e ↦ ids-none n rs a e ∙ sym (ids-none m rs a e)
  | inr (req, e) ↦
      let l = v.ordered a req e in
      ids-some n rs a req e
      ∙ ap (λ z. req.request_id ∷ z)
          (ids_fuel n m rs req.next v (Below-weaken a n req.next (omega arith) l)
            (Below-weaken a m req.next (omega arith) l))
      ∙ sym (ids-some m rs a req e)
]

pub find-none :
    (n : ℕ) (rs : List AppRequest) (a id : ℕ)
    → get_elem? rs a ≡ none
    → find_from (suc n) rs (some a) id ≡ none
unfolding find_from
find-none n rs a id e = rw (e, find_from) refl

pub find-some :
    (n : ℕ) (rs : List AppRequest) (a id : ℕ) (req : AppRequest)
    → get_elem? rs a ≡ some req
    → find_from (suc n) rs (some a) id
      ≡ (if req.request_id == id then some a else find_from n rs req.next id)
unfolding find_from
find-some n rs a id req e = rw (e, find_from) refl

-- what a search along a list comes to
pub data Search (rs : List AppRequest) (id : ℕ) (xs : List ℕ) : Option ℕ → Type 0 where
  missing : has_id id xs ≡ false → Search rs id xs none
  found :
      (a : ℕ) (req : AppRequest)
      → get_elem? rs a ≡ some req
      → has_id id xs ≡ true
      → behind id xs ≡ ids (length rs + 1) rs req.next
      → Search rs id xs (some a)

Search-skip :
    {rs : List AppRequest} {id : ℕ} {xs : List ℕ} {o : Option ℕ} (x : ℕ)
    → (x == id) ≡ false
    → Search rs id xs o
    → Search rs id (x ∷ xs) o
unfolding has_id behind
Search-skip x e (missing h) = missing (rw e h)
Search-skip x e (found a req g h l) = found a req g (rw e h) (rw e l)

Search-here :
    {rs : List AppRequest} {id : ℕ} {xs : List ℕ} (a : ℕ) (req : AppRequest)
    → get_elem? rs a ≡ some req
    → (req.request_id == id) ≡ true
    → xs ≡ ids (length rs + 1) rs req.next
    → Search rs id (req.request_id ∷ xs) (some a)
unfolding has_id behind
Search-here a req g e l = found a req g (rw e refl) (rw e l)

pub find_from-Search :
    (n : ℕ) (rs : List AppRequest) (o : Option ℕ) (id : ℕ)
    → AreLinked rs
    → Below n o
    → Search rs id (ids n rs o) (find_from n rs o id)
unfolding ids find_from has_id
find_from-Search zero rs o id v b = missing refl
find_from-Search (suc n) rs none id v b = missing refl
find_from-Search (suc n) rs (some a) id v b = elim (Option-cases (get_elem? rs a)) [
  | inl e ↦
      subst (Search rs id _) (sym (find-none n rs a id e))
        (subst (λ xs. Search rs id xs none) (sym (ids-none n rs a e)) (missing refl))
  | inr (req, e) ↦
      let l = v.ordered a req e in
      let below = Below-weaken a n req.next (omega arith) l in
      let next : Search rs id (req.request_id ∷ ids n rs req.next)
          (find_from (suc n) rs (some a) id) =
        subst (Search rs id _) (sym (find-some n rs a id req e))
          (elim (Bool-cases (req.request_id == id)) [
            | inl s ↦ rw s (
                Search-here a req e s (
                  ids_fuel n (length rs + 1) rs req.next v below (
                    Below-weaken a (length rs + 1) req.next (omega (arith, lt_of_get_elem? rs a e))
                      l)))
            | inr s ↦
                rw s (Search-skip req.request_id s (find_from-Search n rs req.next id v below))
          ]) in
      subst (λ xs. Search rs id xs (find_from (suc n) rs (some a) id)) (sym (ids-some n rs a req e))
        next
]
