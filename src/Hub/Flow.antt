-- ===== src/Hub/Flow.antt =====
-- internal/hub/hub.go, Assign step by step, as the locks let other goroutines come in between. Assign holds
-- h.mu from its start to its end, and the mutex of a session only while it reserves or undoes.
use crawler_lite.Hub.Ops.{undo, push, reserve, has_room, has_slot, release_slot}
use crawler_lite.Hub.Model.{
  put_meta, assign_task, find_session, Session, delete_meta, update_session, WorkerHub,
}
use crawler_lite.Prelude.Base.{if◌then◌else◌, ◌∷◌, Option, none, some, List, ℕ, []}
use crawler_lite.Task.Model.{AssignTask}

-- Where an Assign stands: before the next session of its walk, or behind the reservation of a slot.
pub data Assigning : Type 0 where
  visits : List ℕ → AssignTask → Assigning
  holds : ℕ → List ℕ → AssignTask → Assigning

-- The hub, and the Assign that holds h.mu, if there is one.
pub record HubState : Type 0 where
  pub hub : WorkerHub
  pub assigning : Option Assigning

abbrev pub idle : WorkerHub → HubState
idle h = record { hub = h; assigning = none }

abbrev pub moved : WorkerHub → Assigning → HubState
moved h g = record { hub = h; assigning = some g }

-- A session of the walk: without a free slot it is passed over, else a slot is reserved.
abbrev pub visit : ℕ → List ℕ → AssignTask → WorkerHub → Option Session → HubState
visit sid order a h none = moved h (visits order a)
visit sid order a h (some s) =
    if has_slot s
    then moved (record h { sessions = update_session sid (reserve a.task_id) h.sessions })
        (holds sid order a)
    else moved h (visits order a)

-- Behind the reservation: the message goes into the outbox and the task into the map, or the reservation
-- is undone.
abbrev pub send_or_undo : ℕ → List ℕ → AssignTask → WorkerHub → Option Session → HubState
send_or_undo sid order a h none = moved h (visits order a)
send_or_undo sid order a h (some s) =
    if has_room s
    then idle (record h {
      sessions = update_session sid (push (assign_task a)) h.sessions;
      tasks = put_meta a.task_id (record { session_id = sid; spider_id = a.spider_id }) h.tasks;
    })
    else moved (record h { sessions = update_session sid (undo a.task_id) h.sessions })
        (visits order a)

abbrev pub advanced : WorkerHub → Option Assigning → HubState
advanced h none = idle h
advanced h (some (visits [] a)) = idle h
advanced h (some (visits (sid ∷ order) a)) = visit sid order a h (find_session sid h.sessions)
advanced h (some (holds sid order a)) = send_or_undo sid order a h (find_session sid h.sessions)

-- The next step of Assign; at the end of its walk it releases h.mu.
unfoldable pub advance : HubState → HubState
advance f = advanced f.hub f.assigning

abbrev pub with_hub : WorkerHub → HubState → HubState
with_hub h f = record f { hub = h }

-- releaseTask, first half, under the session's mutex.
unfoldable pub free_slot : ℕ → ℕ → WorkerHub → WorkerHub
free_slot sid task h = record h { sessions = update_session sid (release_slot task) h.sessions }

-- releaseTask, second half, under h.mu.
unfoldable pub forget_task : ℕ → WorkerHub → WorkerHub
forget_task task h = record h { tasks = delete_meta task h.tasks }
