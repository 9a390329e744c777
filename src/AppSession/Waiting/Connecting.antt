-- ===== src/AppSession/Waiting/Connecting.antt =====
-- When `osrfAppSessionConnect` and `osrfAppSessionSendBatch` of src/libopensrf/osrf_app_session.c take a
-- session for connected.
use open_srf.Prelude.{
  ℕ, ◌≡◌, refl, subst, ◌⊎◌, inl, inr, Bool, true, false, Option, none, some, List, [], ◌∷◌, ◌-◌,
  if◌then◌else◌, Bytes,
}
use open_srf.OsrfMessage.{MType}
use open_srf.AppSession.{AppSession, connecting}
use open_srf.AppSession.Queue.{reset_remote, set_remote}
use open_srf.AppSession.Waiting.{
  Wait, is_connected, lower, connect_from, prepare, session_connect, needs_connection, if_connected,
  send_batch,
}

-- a result that is yes only for a connected session
abbrev IsHonest : Option (AppSession × Bool) → Type 0
IsHonest r = (s : AppSession) → r ≡ some (s, true) → is_connected s.state ≡ true

some-IsHonest : (s : AppSession) → IsHonest (some (s, is_connected s.state))
some-IsHonest s t e = cc

true-IsHonest : (s : AppSession) → is_connected s.state ≡ true → IsHonest (some (s, true))
true-IsHonest s c t e = cc

false-IsHonest : (s : AppSession) → IsHonest (some (s, false))
false-IsHonest s t e = cc

none-IsHonest : IsHonest none
none-IsHonest t e = cc

if-IsHonest :
    (b : Bool) (x y : Option (AppSession × Bool))
    → (b ≡ true → IsHonest x)
    → IsHonest y
    → IsHonest (if b then x else y)
if-IsHonest true x y f g = f refl
if-IsHonest false x y f g = g

connect_from-IsHonest :
    (waits : List Wait) (start : ℕ) (remaining : Option ℕ) (s : AppSession)
    → IsHonest (connect_from waits start remaining s)
unfolding connect_from
connect_from-IsHonest [] start none s = some-IsHonest s
connect_from-IsHonest (w ∷ waits) start none s = some-IsHonest s
connect_from-IsHonest [] start (some n) s =
    if-IsHonest (is_connected s.state) (some (s, true)) none (true-IsHonest s) none-IsHonest
connect_from-IsHonest (w ∷ waits) start (some n) s =
    let s' = w.effect s in
    let rest = connect_from waits start (lower n (w.now - start)) s' in
    if-IsHonest (is_connected s.state) (some (s, true))
      (if s'.transport_error then some (s', false) else rest) (true-IsHonest s)
      (if-IsHonest s'.transport_error (some (s', false)) rest (λ e. false-IsHonest s')
        (connect_from-IsHonest waits start (lower n (w.now - start)) s'))

session_connect-IsHonest :
    (wait : AppSession → AppSession) (waits : List Wait) (start : ℕ) (s : AppSession)
    → IsHonest (session_connect wait waits start s)
unfolding session_connect
session_connect-IsHonest wait waits start s =
    let asked = prepare wait (record (reset_remote s) { state = connecting }) in
    if-IsHonest (is_connected s.state) (some (s, true)) (connect_from waits start (some 5) asked)
      (true-IsHonest s) (connect_from-IsHonest waits start (some 5) asked)

-- Where a message that needs a connection may go: from a connected session to the server it has, or from a
-- stateless one to the address it began with.
abbrev pub IsAllowed : AppSession → Bytes → Type 0
IsAllowed s to =
    ((is_connected s.state ≡ true) × (to ≡ s.remote_id))
    ⊎ ((s.stateless ≡ true) × (to ≡ s.orig_remote_id))

-- what is handed out is allowed
abbrev AreAllowed : Option (AppSession × Option Bytes) → Type 0
AreAllowed none = Unit
AreAllowed (some (s, none)) = Unit
AreAllowed (some (s, some to)) = IsAllowed s to

if_connected-AreAllowed :
    (r : Option (AppSession × Bool)) → IsHonest r → AreAllowed (if_connected r)
if_connected-AreAllowed none h = tt
if_connected-AreAllowed (some (s, true)) h = inl (h s refl, refl)
if_connected-AreAllowed (some (s, false)) h = tt

if-AreAllowed :
    (b : Bool) (x y : Option (AppSession × Option Bytes))
    → (b ≡ true → AreAllowed x)
    → (b ≡ false → AreAllowed y)
    → AreAllowed (if b then x else y)
if-AreAllowed true x y f g = f refl
if-AreAllowed false x y f g = g refl

-- Whatever the waits do, `osrfAppSessionSendBatch` sends a message that needs a connection only from a session
-- that is then connected, to the server it has, or from a stateless session, to the address it began with.
pub send_batch-IsAllowed :
    (wait wait_connect : AppSession → AppSession) (waits : List Wait) (start : ℕ) (s : AppSession)
    (type : MType) (s' : AppSession) (to : Bytes)
    → needs_connection type ≡ true
    → send_batch wait wait_connect waits start s type ≡ some (s', some to)
    → IsAllowed s' to
unfolding send_batch reset_remote set_remote
send_batch-IsAllowed wait wait_connect waits start session type s' to n e =
    let s = wait session in
    let dialled =
      if_connected-AreAllowed (session_connect wait_connect waits start s)
        (session_connect-IsHonest wait_connect waits start s) in
    let r = if_connected (session_connect wait_connect waits start s) in
    let kept : Option (AppSession × Option Bytes) = some (s, some s.remote_id) in
    let all : AreAllowed (send_batch wait wait_connect waits start session type) =
      if-AreAllowed (is_connected s.state) _ _ (λ t. inl (t, refl))
        (λ t.
          if-AreAllowed s.stateless _ _ (λ u. inr (u, refl))
            (λ u.
              if-AreAllowed (needs_connection type) r kept (λ w. dialled) (λ w. absurd (cc)))) in
    subst AreAllowed e all
