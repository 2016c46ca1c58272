-- ===== src/Hub/Races.antt =====
-- CancelRunning of internal/hub/hub.go, whose send comes after its lock is released.
use mathlib.Core.Bool.{false≢true}
use crawler_lite.Prelude.Base.{
  ℕ, ◌≡◌, refl, sym, ap, ◌∙◌, inl, inr, true, false, none, some, List, [], ◌∷◌, All, ◌==◌, arith,
  Bool-cases, Option-cases,
}
use crawler_lite.Hub.Model.{Session, WorkerHub, find_session, find_meta}
use crawler_lite.Hub.Ops.{unregister, cancel_lookup, is_gone, cancel_send, cancel_running}
use crawler_lite.Hub.Invariant.{Inv, is_registered}

is_gone-is_registered :
    (sid : ℕ) (ss : List Session) (gone : List ℕ)
    → All (λ g. is_registered g ss ≡ false) gone
    → is_registered sid ss ≡ true
    → is_gone sid gone ≡ false
is_gone-is_registered sid ss [] h r = refl
is_gone-is_registered sid ss (g ∷ gone) (h, hs) r = elim (Bool-cases (g == sid)) [
  | inl e ↦ absurd (false≢true (sym h ∙ ap (λ i. is_registered i ss) (ground (arith, e)) ∙ r))
  | inr e ↦ rw e (is_gone-is_registered sid ss gone hs r)
]

find_session-is_registered :
    (id : ℕ) (ss : List Session) (s : Session)
    → find_session id ss ≡ some s
    → is_registered s.session_id ss ≡ true
find_session-is_registered id [] s e = cc
find_session-is_registered id (t ∷ ss) s e = ground (arith, find_session-is_registered id ss s)

cancel_lookup-is_registered :
    (task sid : ℕ) (h : WorkerHub)
    → cancel_lookup task h ≡ some sid
    → is_registered sid h.sessions ≡ true
unfolding cancel_lookup
cancel_lookup-is_registered task sid h e = elim (Option-cases (find_meta task h.tasks)) [
  | inl q ↦ ground (arith, q, e)
  | inr (m, q) ↦ elim (Option-cases (find_session m.session_id h.sessions)) [
    | inl n ↦ ground (arith, q, n, e)
    | inr (s, found) ↦
        ap (λ i. is_registered i h.sessions) (ground (arith, q, found, e))
        ∙ find_session-is_registered m.session_id h.sessions s found
  ]
]

-- In a hub with the invariant, the send of CancelRunning to the session that its look-up found does
-- not panic, and gives what CancelRunning gives as one step. If that session is unregistered between
-- the look-up and the send, the send panics, on the closed outbox.
pub cancel_send_lem :
    (task sid : ℕ) (h : WorkerHub)
    → Inv h
    → cancel_lookup task h ≡ some sid
    → (cancel_send sid task h ≡ some (cancel_running task h))
      × (cancel_send sid task (unregister sid h) ≡ none)
unfolding cancel_send cancel_running unregister
cancel_send_lem task sid h v e =
    let here : is_gone sid h.gone ≡ false =
      is_gone-is_registered sid h.sessions h.gone v.closed
        (cancel_lookup-is_registered task sid h e) in
    (rw (here, cancel_running, e, here) refl, ground arith)
