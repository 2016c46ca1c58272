-- ===== src/Hub/Slots.antt =====
-- internal/hub/hub.go: Assign against its steps, and a heartbeat between a reservation and its undoing.
use mathlib.Core.Path.{subst}
use crawler_lite.Hub.Invariant.{find_session-id}
use crawler_lite.Prelude.Base.{
  sym, Bool-cases, ◌∙◌, ap, inr, inl, Option-cases, arith, ◌∷◌, List, ℕ, ◌≡◌, refl, [],
}
use crawler_lite.Hub.Lookups.{find-update_same}
use crawler_lite.Hub.Ops.{assigned, tried, reserve, assign, push, undo, has_room, has_slot}
use crawler_lite.Hub.Model.{put_meta, assign_task, find_session, WorkerHub, update_session, Session}
use crawler_lite.Hub.Flow.{visits, moved, holds, idle, HubState, advance}
use crawler_lite.Task.Model.{AssignTask}

-- The steps of an Assign with nothing in between.
pub data Advances : HubState → HubState → Type 0 where
  stays : (f : HubState) → Advances f f
  goes_on : (f : HubState) {g : HubState} → Advances (advance f) g → Advances f g

update-update :
    (sid : ℕ) (f g : Session → Session) (ss : List Session)
    → ((s : Session) → (g s).session_id ≡ s.session_id)
    → update_session sid f (update_session sid g ss) ≡ update_session sid (λ s. f (g s)) ss
update-update sid f g [] same = refl
update-update sid f g (s ∷ ss) same = ground (arith, same s, update-update sid f g ss same)

-- The walk and a session's two steps, as one write and as two.
pushed_once :
    (sid : ℕ) (a : AssignTask) (s : Session) (h : WorkerHub)
    → s.session_id ≡ sid
    → idle (record h {
      sessions =
          update_session sid
            (push (assign_task a))
            (update_session sid (reserve a.task_id) h.sessions);
      tasks = put_meta a.task_id (record { session_id = sid; spider_id = a.spider_id }) h.tasks;
    })
      ≡ idle (assigned a s h)
pushed_once sid a s h i =
    ap
      (λ ss. idle (record h {
        sessions = ss;
        tasks = put_meta a.task_id (record { session_id = sid; spider_id = a.spider_id }) h.tasks;
      }))
      (update-update sid (push (assign_task a)) (reserve a.task_id) h.sessions (λ _. refl))
    ∙ ap
        (λ n. idle (record h {
          sessions = update_session n (λ s. push (assign_task a) (reserve a.task_id s)) h.sessions;
          tasks = put_meta a.task_id (record { session_id = n; spider_id = a.spider_id }) h.tasks;
        }))
        (sym i)

undone_once :
    (sid : ℕ) (order : List ℕ) (a : AssignTask) (s : Session) (h : WorkerHub)
    → s.session_id ≡ sid
    → moved
        (record h {
          sessions =
              update_session sid
                (undo a.task_id)
                (update_session sid (reserve a.task_id) h.sessions);
        })
        (visits order a)
      ≡ moved (tried a s h) (visits order a)
undone_once sid order a s h i =
    ap (λ ss. moved (record h { sessions = ss }) (visits order a))
      (update-update sid (undo a.task_id) (reserve a.task_id) h.sessions (λ _. refl)
        ∙ ap (λ n. update_session n (λ s. undo a.task_id (reserve a.task_id s)) h.sessions) (sym i))

-- Where no other goroutine comes in between, the steps of an Assign lead to the hub that Hub.Ops.assign
-- gives, with h.mu released, whatever the order in which the map is walked.
pub assign-Advances :
    (order : List ℕ) (a : AssignTask) (h : WorkerHub)
    → Advances (moved h (visits order a)) (idle (assign order a h).1)
unfolding advance assign
assign-Advances [] a h = goes_on (moved h (visits [] a)) (stays (idle h))
assign-Advances (sid ∷ order) a h =
    goes_on (moved h (visits (sid ∷ order) a)) (elim (Option-cases (find_session sid h.sessions)) [
      | inl e ↦ rw (e, assign) (assign-Advances order a h)
      | inr (s, e) ↦ elim (Bool-cases (has_slot s)) [
        | inr full ↦ rw (e, assign, full) (assign-Advances order a h)
        | inl slot ↦
            let r = reserve a.task_id in
            let h' : WorkerHub = record h { sessions = update_session sid r h.sessions } in
            let x = find-update_same sid r s h.sessions refl e in
            let i = find_session-id sid h.sessions s e in
            elim (Bool-cases (has_room s)) [
              | inl room ↦
                  rw (e, assign, slot, room)
                    (goes_on (moved h' (holds sid order a)) (
                      rw (x, room)
                        (subst (λ f. Advances f (idle (assigned a s h)))
                          (sym (pushed_once sid a s h i)) (stays (idle (assigned a s h))))))
              | inr full ↦
                  rw (e, assign, slot, full)
                    (goes_on (moved h' (holds sid order a)) (
                      rw (x, full)
                        (subst (λ f. Advances f (idle (assign order a (tried a s h)).1))
                          (sym (undone_once sid order a s h i))
                          (assign-Advances order a (tried a s h)))))
            ]
      ]
    ])
