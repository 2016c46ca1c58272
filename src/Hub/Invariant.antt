-- ===== src/Hub/Invariant.antt =====
-- What holds of the hub between two operations, for any interleaving of them.
use crawler_lite.Prelude.Base.{
  ℕ, ◌≤◌, ◌≡◌, refl, ◌==◌, inl, inr, Bool, true, false, some, List, [], ◌∷◌, length, All, arith,
  Bool-cases, if◌then◌else◌,
}
use crawler_lite.Hub.Model.{
  Session, TaskMeta, WorkerHub, outbox_cap, find_session, update_session, remove_session,
  delete_meta, drop_session,
}
use crawler_lite.Hub.Ops.{is_gone}

abbrev pub is_registered : ℕ → List Session → Bool
is_registered id [] = false
is_registered id (s ∷ ss) = if s.session_id == id then true else is_registered id ss

-- An outbox within the channel's capacity.
abbrev pub Fits : Session → Type 0
Fits s = length s.outbox ≤ outbox_cap

abbrev pub IsOwned : List Session → ℕ × TaskMeta → Type 0
IsOwned ss e = is_registered e.1.session_id ss ≡ true

-- Every assigned task belongs to a registered session, every session fits, and no session whose
-- outbox is closed is registered.
pub record Inv (h : WorkerHub) : Type 0 where
  pub owned : All (IsOwned h.sessions) h.tasks
  pub fit : All Fits h.sessions
  pub closed : All (λ sid. is_registered sid h.sessions ≡ false) h.gone

-- The invariant survives a write through a session pointer that keeps the identity and the bounds.
module _ (sid : ℕ) (f : Session → Session)
    (same : (s : Session) → (f s).session_id ≡ s.session_id) where
  pub is_registered-update :
      (id : ℕ) (ss : List Session)
      → is_registered id (update_session sid f ss) ≡ is_registered id ss
  is_registered-update id [] = refl
  is_registered-update id (s ∷ ss) = ground (arith, same s, is_registered-update id ss)

  All-update :
      (ss : List Session)
      → ((s : Session) → find_session sid ss ≡ some s → Fits s → Fits (f s))
      → All Fits ss
      → All Fits (update_session sid f ss)
  All-update [] k h = tt
  All-update (s ∷ ss) k (h, hs) = elim (Bool-cases (s.session_id == sid)) [
    | inl e ↦ rw e (k s (rw e) h, hs)
    | inr e ↦ rw e (h, All-update ss (λ u q. k u (rw e q)) hs)
  ]

IsOwned-cong :
    (ss us : List Session) (ts : List (ℕ × TaskMeta))
    → ((id : ℕ) → is_registered id us ≡ is_registered id ss)
    → All (IsOwned ss) ts
    → All (IsOwned us) ts
IsOwned-cong ss us [] e h = tt
IsOwned-cong ss us ((k, m) ∷ ts) e (h, hs) = (rw e h, IsOwned-cong ss us ts e hs)

closed-cong :
    (ss us : List Session) (gone : List ℕ)
    → ((id : ℕ) → is_registered id us ≡ is_registered id ss)
    → All (λ sid. is_registered sid ss ≡ false) gone
    → All (λ sid. is_registered sid us ≡ false) gone
closed-cong ss us [] e h = tt
closed-cong ss us (g ∷ gone) e (h, hs) = (rw e h, closed-cong ss us gone e hs)

pub IsOwned-delete :
    (ss : List Session) (id : ℕ) (ts : List (ℕ × TaskMeta))
    → All (IsOwned ss) ts
    → All (IsOwned ss) (delete_meta id ts)
IsOwned-delete ss id [] h = tt
IsOwned-delete ss id ((k, m) ∷ ts) (h, hs) = ground (arith, IsOwned-delete ss id ts hs)

pub is_registered-remove_ne :
    (sid id : ℕ) (ss : List Session)
    → (id == sid) ≡ false
    → is_registered id (remove_session sid ss) ≡ is_registered id ss
is_registered-remove_ne sid id [] n = refl
is_registered-remove_ne sid id (s ∷ ss) n = ground (arith, is_registered-remove_ne sid id ss n)

pub is_registered-remove_self :
    (sid : ℕ) (ss : List Session) → is_registered sid (remove_session sid ss) ≡ false
is_registered-remove_self sid [] = refl
is_registered-remove_self sid (s ∷ ss) = ground (arith, is_registered-remove_self sid ss)

pub IsOwned-drop :
    (sid : ℕ) (ss : List Session) (ts : List (ℕ × TaskMeta))
    → All (IsOwned ss) ts
    → All (IsOwned (remove_session sid ss)) (drop_session sid ts)
IsOwned-drop sid ss [] h = tt
IsOwned-drop sid ss ((k, m) ∷ ts) (h, hs) =
    ground (arith, IsOwned-drop sid ss ts hs, is_registered-remove_ne sid m.session_id ss)

pub closed-remove :
    (sid : ℕ) (ss : List Session) (gone : List ℕ)
    → All (λ g. is_registered g ss ≡ false) gone
    → All (λ g. is_registered g (remove_session sid ss) ≡ false) gone
closed-remove sid ss [] h = tt
closed-remove sid ss (g ∷ gone) (h, hs) = (
  ground (arith, is_registered-remove_ne sid g ss, is_registered-remove_self sid ss),
  closed-remove sid ss gone hs,
)

pub fit-remove : (sid : ℕ) (ss : List Session) → All Fits ss → All Fits (remove_session sid ss)
fit-remove sid [] h = tt
fit-remove sid (s ∷ ss) (h, hs) = ground (arith, fit-remove sid ss hs)

-- Every write through a session pointer that keeps the identity and the bounds keeps the invariant.
pub update-Inv :
    (sid : ℕ) (f : Session → Session) (h : WorkerHub)
    → ((s : Session) → (f s).session_id ≡ s.session_id)
    → ((s : Session) → find_session sid h.sessions ≡ some s → Fits s → Fits (f s))
    → Inv h
    → Inv (record h { sessions = update_session sid f h.sessions })
update-Inv sid f h same k v = record {
  owned =
      IsOwned-cong h.sessions _ h.tasks (λ id. is_registered-update sid f same id h.sessions)
        v.owned;
  fit = All-update sid f same h.sessions k v.fit;
  closed =
      closed-cong h.sessions _ h.gone (λ id. is_registered-update sid f same id h.sessions)
        v.closed;
}

pub find_session-is_registered :
    (id : ℕ) (ss : List Session) (s : Session)
    → find_session id ss ≡ some s
    → is_registered id ss ≡ true
find_session-is_registered id [] s e = cc
find_session-is_registered id (u ∷ ss) s e = ground (arith, find_session-is_registered id ss s)

pub IsOwned-register :
    (s : Session) (ss : List Session) (ts : List (ℕ × TaskMeta))
    → All (IsOwned ss) ts
    → All (IsOwned (s ∷ remove_session s.session_id ss)) ts
IsOwned-register s ss [] h = tt
IsOwned-register s ss ((k, m) ∷ ts) (h, hs) = (
  ground (arith, is_registered-remove_ne s.session_id m.session_id ss),
  IsOwned-register s ss ts hs,
)

pub closed-register :
    (s : Session) (ss : List Session) (gone : List ℕ)
    → is_gone s.session_id gone ≡ false
    → All (λ g. is_registered g ss ≡ false) gone
    → All (λ g. is_registered g (s ∷ remove_session s.session_id ss) ≡ false) gone
closed-register s ss [] fresh h = tt
closed-register s ss (g ∷ gone) fresh (h, hs) = (
  ground (arith, is_registered-remove_ne s.session_id g ss),
  closed-register s ss gone (ground arith) hs,
)

pub closed_not_gone :
    (sid : ℕ) (ss : List Session) (gone : List ℕ)
    → All (λ g. is_registered g ss ≡ false) gone
    → is_registered sid ss ≡ true
    → is_gone sid gone ≡ false
closed_not_gone sid ss [] h r = refl
closed_not_gone sid ss (g ∷ gone) (h, hs) r = ground (arith, closed_not_gone sid ss gone hs r)

pub find_session-id :
    (id : ℕ) (ss : List Session) (s : Session) → find_session id ss ≡ some s → s.session_id ≡ id
find_session-id id [] s e = cc
find_session-id id (u ∷ ss) s e = ground (arith, find_session-id id ss s)
