-- ===== src/Stack/Taking.antt =====
-- What the messages for one request do to it in src/libopensrf/osrf_stack.c and
-- src/libopensrf/osrf_app_session.c.
use open_srf.Prelude.{
  ℕ, ◌≡◌, refl, sym, ap, subst, ◌∙◌, Bool, true, false, Option, none, some, List, [], ◌∷◌, ◌++◌,
  ◌==◌, ltb, if◌then◌else◌, Bytes,
}
use open_srf.JsonObject.{JsonObject}
use open_srf.OsrfMessage.{MType, OsrfMessage}
use open_srf.AppSession.{PartialBuffer, no_buffer, buffer, freed, AppRequest, AppSession}
use open_srf.AppSession.Queue.{
  keep_buffer, push_partial, push_collected, request_push_queue, session_push_queue,
}
use open_srf.AppSession.Responses.{and_then, push_all}
use open_srf.Stack.{only_session, do_client, do_client_type, do_client_all}
use open_srf.Stack.Placed.{IsAt, replaced, replaced-IsAt, write_request_lem}

-- Results for one request.
abbrev pub AreFor : ℕ → List OsrfMessage → Type 0
AreFor id [] = Unit
AreFor id (msg ∷ msgs) = (msg.m_type ≡ MType.result) × (msg.thread_trace ≡ id) × AreFor id msgs

module _ (json_parse : Bytes → Option JsonObject) where
  pub session_push_queue_lem :
      {s : AppSession} {a : ℕ} {req : AppRequest} (req' : AppRequest) (msg : OsrfMessage)
      → IsAt s msg.thread_trace a req
      → request_push_queue json_parse req msg ≡ some req'
      → session_push_queue json_parse s msg ≡ some (replaced s a req')
  unfolding session_push_queue
  session_push_queue_lem {s} {a} {req} req' msg v e =
      rw (v.is_found, session_push_queue)
        (rw (v.is_here, session_push_queue)
          (rw (e, session_push_queue)
            (ap (λ rs. some (record s { requests = rs }))
              (write_request_lem (λ r. req') s.requests a req v.is_here))))

  -- A response changes neither the id of the request nor its link.
  abbrev Keeps : AppRequest → Option AppRequest → Type 0
  Keeps req none = Unit
  Keeps req (some req') = (req'.request_id ≡ req.request_id) × (req'.next ≡ req.next)

  Keeps-if :
      (req : AppRequest) (t : Bool) (x y : Option AppRequest)
      → Keeps req x
      → Keeps req y
      → Keeps req (if t then x else y)
  Keeps-if req true x y h k = h
  Keeps-if req false x y h k = k

  keep_buffer-Keeps : (req : AppRequest) (o : Option PartialBuffer) → Keeps req (keep_buffer req o)
  keep_buffer-Keeps req none = tt
  keep_buffer-Keeps req (some b) = (refl, refl)

  push_collected-Keeps :
      (req : AppRequest) (b : PartialBuffer) (msg : OsrfMessage)
      → Keeps req (push_collected json_parse req b msg)
  unfolding push_collected
  push_collected-Keeps req no_buffer msg = (refl, refl)
  push_collected-Keeps req freed msg = tt
  push_collected-Keeps req (buffer gb) msg =
      Keeps-if req (ltb 0 gb.n_used) (some _) (some req) (refl, refl) (refl, refl)

  request_push_queue-Keeps :
      (req : AppRequest) (msg : OsrfMessage) → Keeps req (request_push_queue json_parse req msg)
  unfolding request_push_queue push_partial
  request_push_queue-Keeps req msg =
      Keeps-if req (msg.status_code == 206) _ _ (keep_buffer-Keeps req _) (
        Keeps-if req (msg.status_code == 204) _ _
          (push_collected-Keeps req req.part_response_buffer msg) (refl, refl))

  do_client-result :
      {s : AppSession} {id a : ℕ} {req : AppRequest} (req' : AppRequest) (msg : OsrfMessage)
      → IsAt s id a req
      → msg.m_type ≡ MType.result
      → msg.thread_trace ≡ id
      → request_push_queue json_parse req msg ≡ some req'
      → do_client json_parse s msg ≡ some (replaced s a req', none)
  unfolding do_client do_client_type
  do_client-result {s} {id} {a} {req} req' msg v t i e =
      ap (λ m. do_client_type json_parse m s msg) t
      ∙ ap only_session (session_push_queue_lem req' msg (subst (λ k. IsAt s k a req) (sym i) v) e)

  -- They do to the request of a session what they do to the request alone.
  pub do_client_all-push_all :
      (s : AppSession) (id a : ℕ) (req req' : AppRequest) (msgs more : List OsrfMessage)
      → IsAt s id a req
      → AreFor id msgs
      → push_all json_parse req msgs ≡ some req'
      → (s' : AppSession) × IsAt s' id a req'
        × (do_client_all json_parse s (msgs ++ more) ≡ do_client_all json_parse s' more)
  unfolding push_all do_client_all
  do_client_all-push_all s id a req req' [] more v f e = (s, subst (IsAt s id a) (cc) v, refl)
  do_client_all-push_all s id a req req' (msg ∷ msgs) more v f e =
      further (request_push_queue json_parse req msg) refl (request_push_queue-Keeps req msg) e
        (λ s₁ r w p. do_client_all-push_all s₁ id a r req' msgs more w f.2 p)
    where
      further :
          (o : Option AppRequest)
          → request_push_queue json_parse req msg ≡ o
          → Keeps req o
          → and_then o (λ r. push_all json_parse r msgs) ≡ some req'
          → ((s₁ : AppSession) (r : AppRequest)
              → IsAt s₁ id a r
              → push_all json_parse r msgs ≡ some req'
              → (s' : AppSession) × IsAt s' id a req'
                × (do_client_all json_parse s₁ (msgs ++ more) ≡ do_client_all json_parse s' more))
          → (s' : AppSession) × IsAt s' id a req'
            × (do_client_all json_parse s (msg ∷ (msgs ++ more)) ≡ do_client_all json_parse s' more)
      further none g k p rec = cc
      further (some r) g k p rec =
          let (s', w, q) = rec (replaced s a r) r (replaced-IsAt r v k.0 k.1) p in
          (s', w, rw (do_client-result r msg v f.0 f.1 g, do_client_all) q)
