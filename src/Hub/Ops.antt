-- ===== src/Hub/Ops.antt =====
-- internal/hub/hub.go: the operations on the maps, each as if no other goroutine came in between its steps.
-- Hub.Flow has Assign and releaseTask in the steps that their locks make.
use crawler_lite.Prelude.Base.{
  ℕ, ◌==◌, Bool, true, false, not, ◌&&◌, Option, none, some, List, [], ◌∷◌, ◌++◌, length, ltb,
  if◌then◌else◌,
}
use crawler_lite.Prelude.Int.{ℤ, pos, ◌+ℤ◌, ◌-ℤ◌, ltb_ℤ}
use crawler_lite.Prelude.Text.{is_empty, str_eq}
use crawler_lite.Result.{ok}
use crawler_lite.Task.Model.{AssignTask, HubOps}
use crawler_lite.Hub.Model.{
  MasterMsg, assign_task, cancel_task, Hello, Session, TaskMeta, WorkerHub, outbox_cap,
  find_session, update_session, remove_session, find_meta, delete_meta, put_meta, drop_session,
  delete_id, insert_id,
}

abbrev pub new_session : ℕ → Hello → Session
new_session sid hello = record {
  worker_id = hello.worker_id;
  session_id = sid;
  capabilities = hello.capabilities;
  concurrency = hello.concurrency;
  free_slots = hello.concurrency;
  running_tasks = pos 0;
  outbox = [];
  running = [];
}

unfoldable pub register : Session → WorkerHub → WorkerHub
register s h = record h { sessions = s ∷ remove_session s.session_id h.sessions }

-- The session leaves both maps and its outbox is closed.
unfoldable pub unregister : ℕ → WorkerHub → WorkerHub
unregister sid h = record h {
  sessions = remove_session sid h.sessions;
  tasks = drop_session sid h.tasks;
  gone = sid ∷ h.gone;
}

-- Connect up to the registration: the secret is checked, where one is set.
unfoldable pub connect : ℕ → Hello → WorkerHub → Option WorkerHub
unfolding register
connect sid hello h =
    if not (is_empty h.shared_secret) && not (str_eq hello.shared_secret h.shared_secret)
    then none
    else some (register (new_session sid hello) h)

abbrev pub has_slot : Session → Bool
has_slot s = ltb_ℤ (pos 0) s.free_slots

abbrev pub has_room : Session → Bool
has_room s = ltb (length s.outbox) outbox_cap

-- The reservation of a slot. It is only made where a slot is free, so the int32 does not wrap.
abbrev pub reserve : ℕ → Session → Session
reserve task s = record s { running = insert_id task s.running; free_slots = s.free_slots -ℤ pos 1 }

abbrev pub push : MasterMsg → Session → Session
push m s = record s { outbox = s.outbox ++ (m ∷ []) }

-- The outbox is full: the reservation is undone.
abbrev pub undo : ℕ → Session → Session
undo task s = record s { running = delete_id task s.running; free_slots = s.free_slots +ℤ pos 1 }

-- What Assign does to the first session that takes the task.
abbrev pub assigned : AssignTask → Session → WorkerHub → WorkerHub
assigned a s h = record h {
  sessions =
      update_session s.session_id (λ s. push (assign_task a) (reserve a.task_id s)) h.sessions;
  tasks =
      put_meta a.task_id (record { session_id = s.session_id; spider_id = a.spider_id }) h.tasks;
}

-- The reservation and its undoing, where nothing comes between them.
abbrev pub tried : AssignTask → Session → WorkerHub → WorkerHub
tried a s h = record h {
  sessions = update_session s.session_id (λ s. undo a.task_id (reserve a.task_id s)) h.sessions;
}

-- Assign over the sessions in the order in which Go walks the map, which is any order, where no
-- heartbeat and no release comes in between its steps.
unfoldable pub assign : List ℕ → AssignTask → WorkerHub → Bool × WorkerHub
assign [] a h = (false, h)
assign (sid ∷ order) a h = elim (find_session sid h.sessions) [
  | none ↦ assign order a h
  | some s ↦ elim (has_slot s) [
    | false ↦ assign order a h
    | true ↦ elim (has_room s) [
      | true ↦ (true, assigned a s h)
      | false ↦ assign order a (tried a s h)
    ]
  ]
]

abbrev pub release_slot : ℕ → Session → Session
release_slot task s = record s {
  running = delete_id task s.running;
  free_slots = if ltb_ℤ s.free_slots s.concurrency then s.free_slots +ℤ pos 1 else s.free_slots;
}

-- releaseTask where nothing comes between its two halves.
unfoldable pub release_task : ℕ → ℕ → WorkerHub → WorkerHub
release_task sid task h = record h {
  sessions = update_session sid (release_slot task) h.sessions;
  tasks = delete_meta task h.tasks;
}

unfoldable pub lookup_task : ℕ → WorkerHub → Option TaskMeta
lookup_task task h = find_meta task h.tasks

-- CancelRunning under the read lock: the session that it will send to.
unfoldable pub cancel_lookup : ℕ → WorkerHub → Option ℕ
cancel_lookup task h = elim (find_meta task h.tasks) [
  | none ↦ none
  | some m ↦ elim (find_session m.session_id h.sessions) [
    | none ↦ none
    | some s ↦ some s.session_id
  ]
]

abbrev pub is_gone : ℕ → List ℕ → Bool
is_gone sid [] = false
is_gone sid (x ∷ xs) = if x == sid then true else is_gone sid xs

abbrev pub offer : MasterMsg → Session → Session
offer m s = if has_room s then push m s else s

-- CancelRunning after the lock is released: a send to a closed outbox panics (`none`), and one to a
-- full outbox is dropped.
unfoldable pub cancel_send : ℕ → ℕ → WorkerHub → Option WorkerHub
cancel_send sid task h =
    if is_gone sid h.gone
    then none
    else some (record h { sessions = update_session sid (offer (cancel_task task)) h.sessions })

-- CancelRunning where nothing comes between its two halves.
unfoldable pub cancel_running : ℕ → WorkerHub → WorkerHub
unfolding cancel_lookup cancel_send
cancel_running task h = elim (cancel_lookup task h) [
  | none ↦ h
  | some sid ↦ elim (cancel_send sid task h) [ none ↦ h | some h' ↦ h' ]
]

abbrev pub beat : ℤ → ℤ → Session → Session
beat running free s = record s { running_tasks = running; free_slots = free }

-- The readLoop's case of a Heartbeat.
unfoldable pub on_heartbeat : ℕ → ℤ → ℤ → WorkerHub → WorkerHub
on_heartbeat sid running free h = record h {
  sessions = update_session sid (beat running free) h.sessions;
}

abbrev pub pop_outbox : Session → Session
pop_outbox s = elim s.outbox [ [] ↦ s | m ∷ rest ↦ record s { outbox = rest } ]

-- One round of pumpOutbox: the next message goes to the wire.
unfoldable pub pump : ℕ → WorkerHub → WorkerHub
pump sid h = record h { sessions = update_session sid pop_outbox h.sessions }

-- The hub behind the interface of the task service, where `order` chooses the walk of the map.
abbrev pub hub_ops : (WorkerHub → List ℕ) → HubOps WorkerHub
hub_ops order = record {
  assign = λ a h. let (done, h') = assign (order h) a h in (ok done, h');
  cancel_running = λ task h. (ok tt, cancel_running task h);
}
