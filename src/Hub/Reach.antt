-- ===== src/Hub/Reach.antt =====
-- The steps of the hub in any order, and the invariant along them.
use crawler_lite.Hub.Flow.{
  holds, advanced, moved, visits, Assigning, free_slot, send_or_undo, visit, with_hub, HubState,
  advance, forget_task,
}
use crawler_lite.Prelude.Base.{
  sym, none, Option, ◌∙◌, ℕ, ◌≡◌, refl, inl, inr, true, false, some, List, [], ◌∷◌, length-append,
  arith, Bool-cases,
}
use crawler_lite.Hub.Invariant.{
  is_registered, Fits, Inv, is_registered-remove_self, is_registered-update,
  find_session-is_registered, IsOwned-register, closed-register, IsOwned-delete, IsOwned-drop,
  closed-remove, fit-remove, update-Inv,
}
use mathlib.Core.Option.{some-injective}
use crawler_lite.Hub.Model.{
  put_meta, update_session, assign_task, cancel_task, Hello, Session, WorkerHub, find_session,
  SinkWrite,
}
use mathlib.Core.Path.{subst}
use crawler_lite.Prelude.Int.{ℤ}
use crawler_lite.Task.Model.{AssignTask}
use crawler_lite.Hub.Ops.{
  new_session, register, unregister, has_slot, has_room, reserve, push, undo, release_slot, is_gone,
  offer, cancel_send, beat, on_heartbeat, pop_outbox, pump,
}

-- One step of some goroutine, under the lock that it takes. What takes h.mu waits while an Assign holds
-- it; a heartbeat takes no lock, and the first half of releaseTask and Assign's reservation and its
-- undoing take the session's mutex only. Assign has one step between each two of its locks. The
-- second half of a releaseTask and the send of a CancelRunning come at any time that their lock
-- allows, and for any task and session. A new session's UUID is fresh.
pub data Step (f : HubState) : HubState → Type 0 where
  joins :
      (sid : ℕ) (hello : Hello)
      → f.assigning ≡ none
      → is_gone sid f.hub.gone ≡ false
      → Step f (with_hub (register (new_session sid hello) f.hub) f)
  leaves : (sid : ℕ) → f.assigning ≡ none → Step f (with_hub (unregister sid f.hub) f)
  assigns :
      (order : List ℕ) (a : AssignTask) → f.assigning ≡ none → Step f (moved f.hub (visits order a))
  advances : Step f (advance f)
  frees : (sid task : ℕ) → Step f (with_hub (free_slot sid task f.hub) f)
  forgets : (task : ℕ) → f.assigning ≡ none → Step f (with_hub (forget_task task f.hub) f)
  cancels :
      (sid task : ℕ) (h : WorkerHub) → cancel_send sid task f.hub ≡ some h → Step f (with_hub h f)
  beats : (sid : ℕ) (running free : ℤ) → Step f (with_hub (on_heartbeat sid running free f.hub) f)
  pumps : (sid : ℕ) → Step f (with_hub (pump sid f.hub) f)
  writes : (x : SinkWrite) → Step f (with_hub (record f.hub { written = x ∷ f.hub.written }) f)

pub data Reach (f : HubState) : HubState → Type 0 where
  here : Reach f f
  next : {u v : HubState} → Reach f u → Step u v → Reach f v

-- The session whose slot an Assign holds is registered, since h.mu is not released in between.
abbrev pub HoldsRegistered : WorkerHub → Option Assigning → Type 0
HoldsRegistered h none = Unit
HoldsRegistered h (some (visits order a)) = Unit
HoldsRegistered h (some (holds sid order a)) = is_registered sid h.sessions ≡ true

pub record StateInv (f : HubState) : Type 0 where
  pub hub_inv : Inv f.hub
  pub held : HoldsRegistered f.hub f.assigning

HoldsRegistered-update :
    (h h' : WorkerHub) (g : Option Assigning)
    → ((id : ℕ) → is_registered id h'.sessions ≡ is_registered id h.sessions)
    → HoldsRegistered h g
    → HoldsRegistered h' g
HoldsRegistered-update h h' none e k = tt
HoldsRegistered-update h h' (some (visits order a)) e k = tt
HoldsRegistered-update h h' (some (holds sid order a)) e k = e sid ∙ k

-- Where no Assign holds h.mu.
unlocked :
    (h : WorkerHub) (g : Option Assigning)
    → g ≡ none
    → Inv h
    → StateInv (record { hub = h; assigning = g })
unlocked h none e v = record { hub_inv = v; held = tt }
unlocked h (some g) e v = cc

unregister-Inv : (sid : ℕ) (h : WorkerHub) → Inv h → Inv (unregister sid h)
unfolding unregister
unregister-Inv sid h v = record {
  owned = IsOwned-drop sid h.sessions h.tasks v.owned;
  fit = fit-remove sid h.sessions v.fit;
  closed = (is_registered-remove_self sid h.sessions, closed-remove sid h.sessions h.gone v.closed);
}

register-Inv :
    (sid : ℕ) (hello : Hello) (h : WorkerHub)
    → is_gone sid h.gone ≡ false
    → Inv h
    → Inv (register (new_session sid hello) h)
unfolding register
register-Inv sid hello h fresh v = record {
  owned = IsOwned-register (new_session sid hello) h.sessions h.tasks v.owned;
  fit = (ground arith, fit-remove sid h.sessions v.fit);
  closed = closed-register (new_session sid hello) h.sessions h.gone fresh v.closed;
}

-- A write through a session pointer that keeps the identity and the outbox's bound.
write-StateInv :
    (sid : ℕ) (w : Session → Session) (f : HubState)
    → ((s : Session) → (w s).session_id ≡ s.session_id)
    → ((s : Session) → find_session sid f.hub.sessions ≡ some s → Fits s → Fits (w s))
    → StateInv f
    → StateInv (with_hub (record f.hub { sessions = update_session sid w f.hub.sessions }) f)
write-StateInv sid w f same fits v = record {
  hub_inv = update-Inv sid w f.hub same fits v.hub_inv;
  held =
      HoldsRegistered-update f.hub (record f.hub { sessions = update_session sid w f.hub.sessions })
        f.assigning (λ id. is_registered-update sid w same id f.hub.sessions) v.held;
}

visit-StateInv :
    (sid : ℕ) (order : List ℕ) (a : AssignTask) (h : WorkerHub) (o : Option Session)
    → find_session sid h.sessions ≡ o
    → Inv h
    → StateInv (visit sid order a h o)
visit-StateInv sid order a h none e v = record { hub_inv = v; held = tt }
visit-StateInv sid order a h (some s) e v = elim (Bool-cases (has_slot s)) [
  | inl slot ↦ rw slot (record {
    hub_inv = update-Inv sid (reserve a.task_id) h (λ s. refl) (λ s _ k. k) v;
    held =
        is_registered-update sid (reserve a.task_id) (λ _. refl) sid h.sessions
        ∙ find_session-is_registered sid h.sessions s e;
  })
  | inr full ↦ rw full (record { hub_inv = v; held = tt })
]

pushed-Inv :
    (sid : ℕ) (a : AssignTask) (s : Session) (h : WorkerHub)
    → has_room s ≡ true
    → find_session sid h.sessions ≡ some s
    → Inv h
    → Inv (record h {
      sessions = update_session sid (push (assign_task a)) h.sessions;
      tasks = put_meta a.task_id (record { session_id = sid; spider_id = a.spider_id }) h.tasks;
    })
pushed-Inv sid a s h room e v =
    let f = push (assign_task a) in
    let w =
      update-Inv sid f h (λ _. refl)
        (λ u q k.
          let p : s ≡ u = cc in
          subst (λ (u : Session). Fits u → Fits (f u)) p
            (λ k. ground (arith, room, length-append s.outbox (assign_task a ∷ []))) k)
        v in
    record {
      owned = (
        is_registered-update sid f (λ _. refl) sid h.sessions
            ∙ find_session-is_registered sid h.sessions s e,
        IsOwned-delete _ a.task_id h.tasks w.owned,
      );
      fit = w.fit;
      closed = w.closed;
    }

send_or_undo-StateInv :
    (sid : ℕ) (order : List ℕ) (a : AssignTask) (h : WorkerHub) (o : Option Session)
    → find_session sid h.sessions ≡ o
    → Inv h
    → StateInv (send_or_undo sid order a h o)
send_or_undo-StateInv sid order a h none e v = record { hub_inv = v; held = tt }
send_or_undo-StateInv sid order a h (some s) e v = elim (Bool-cases (has_room s)) [
  | inl room ↦ rw room (record { hub_inv = pushed-Inv sid a s h room e v; held = tt })
  | inr full ↦
      rw full (record {
        hub_inv = update-Inv sid (undo a.task_id) h (λ s. refl) (λ s _ k. k) v;
        held = tt;
      })
]

advanced-StateInv : (h : WorkerHub) (g : Option Assigning) → Inv h → StateInv (advanced h g)
advanced-StateInv h none v = record { hub_inv = v; held = tt }
advanced-StateInv h (some (visits [] a)) v = record { hub_inv = v; held = tt }
advanced-StateInv h (some (visits (sid ∷ order) a)) v =
    visit-StateInv sid order a h (find_session sid h.sessions) refl v
advanced-StateInv h (some (holds sid order a)) v =
    send_or_undo-StateInv sid order a h (find_session sid h.sessions) refl v

forget_task-Inv : (task : ℕ) (h : WorkerHub) → Inv h → Inv (forget_task task h)
unfolding forget_task
forget_task-Inv task h v = record {
  owned = IsOwned-delete _ task h.tasks v.owned;
  fit = v.fit;
  closed = v.closed;
}

cancel_send-StateInv :
    (sid task : ℕ) (h : WorkerHub) (f : HubState)
    → cancel_send sid task f.hub ≡ some h
    → StateInv f
    → StateInv (with_hub h f)
unfolding cancel_send
cancel_send-StateInv sid task h f e v = elim (Bool-cases (is_gone sid f.hub.gone)) [
  | inl g ↦ ground (arith, e, g)
  | inr g ↦
      subst (λ h. StateInv (with_hub h f)) (some-injective _ _ (sym (rw g refl) ∙ e))
        (write-StateInv sid (offer (cancel_task task)) f (λ s. ground arith)
          (λ s _ k. ground (arith, length-append s.outbox (cancel_task task ∷ []))) v)
]

Step-StateInv : {f u : HubState} → Step f u → StateInv f → StateInv u
unfolding advance free_slot on_heartbeat pump
Step-StateInv {f} (joins sid hello free fresh) v =
    unlocked _ f.assigning free (register-Inv sid hello f.hub fresh v.hub_inv)
Step-StateInv {f} (leaves sid free) v =
    unlocked _ f.assigning free (unregister-Inv sid f.hub v.hub_inv)
Step-StateInv {f} (assigns order a free) v = record { hub_inv = v.hub_inv; held = tt }
Step-StateInv {f} advances v = advanced-StateInv f.hub f.assigning v.hub_inv
Step-StateInv {f} (frees sid task) v =
    write-StateInv sid (release_slot task) f (λ s. refl) (λ s _ k. k) v
Step-StateInv {f} (forgets task free) v =
    unlocked _ f.assigning free (forget_task-Inv task f.hub v.hub_inv)
Step-StateInv {f} (cancels sid task h e) v = cancel_send-StateInv sid task h f e v
Step-StateInv {f} (beats sid running free) v =
    write-StateInv sid (beat running free) f (λ _. refl) (λ s _ k. k) v
Step-StateInv {f} (pumps sid) v =
    write-StateInv sid pop_outbox f (λ s. ground arith) (λ s _ k. ground arith) v
Step-StateInv {f} (writes x) v = record {
  hub_inv = record { owned = v.hub_inv.owned; fit = v.hub_inv.fit; closed = v.hub_inv.closed };
  held =
      HoldsRegistered-update f.hub (record f.hub { written = x ∷ f.hub.written }) f.assigning
        (λ _. refl) v.held;
}

-- In any interleaving of registrations, departures, the steps of an Assign, the two halves of
-- releases, sends of cancellations to outboxes that are open, heartbeats, sends and sink writes that
-- starts from a hub with the invariant: every assigned task belongs to a registered session, no
-- outbox is over its capacity, no registered session has a closed outbox, and a session whose slot an
-- Assign has reserved stays registered until the Assign goes on. Nothing is said of the number of free
-- slots, which heartbeats overwrite without a lock.
pub Reach-Inv : {f u : HubState} → StateInv f → Reach f u → StateInv u
Reach-Inv v here = v
Reach-Inv v (next r s) = Step-StateInv s (Reach-Inv v r)
