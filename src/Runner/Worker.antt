-- ===== src/Runner/Worker.antt =====
-- internal/runner/worker.go: assignments, cancellation, slots, heartbeats, and the wait before the next
-- connection. `sent` is what has been put into the outbox, in order: a full outbox only makes a sender
-- wait.
use crawler_lite.Prelude.Base.{
  ℕ, suc, ◌*◌, ◌==◌, Bool, true, false, Option, none, some, List, [], ◌∷◌, ◌++◌, keep, not, ltb,
  if◌then◌else◌,
}
use crawler_lite.Prelude.Int.{ℤ, pos, negsuc, ◌+ℤ◌, wrap32}
use crawler_lite.Hub.Model.{WorkerMsg, TaskState, task_update, heartbeat}
use crawler_lite.Runner.Outcome.{Outcome}

-- A goroutine that runs a task; `serial` tells two of one task apart. `cancelled` is its context.
pub record Job : Type 0 where
  pub serial : ℕ
  pub task_id : ℕ
  pub cancelled : Bool

-- An entry of the map of cancel functions.
pub record Entry : Type 0 where
  pub task_id : ℕ
  pub job : ℕ

pub record Worker : Type 0 where
  pub free_slots : ℤ
  pub running_count : ℤ
  pub running : List Entry
  pub jobs : List Job
  pub next_serial : ℕ
  pub sent : List WorkerMsg

unfoldable pub new_worker : ℤ → Worker
new_worker concurrency = record {
  free_slots = concurrency;
  running_count = pos 0;
  running = [];
  jobs = [];
  next_serial = 0;
  sent = [];
}

-- atomic.Int32.Add
unfoldable pub add : ℤ → ℤ → ℤ
add z by = wrap32 (z +ℤ by)

abbrev pub send_update : ℕ → Outcome → Worker → Worker
send_update id o w = record w {
  sent =
      w.sent
      ++ (task_update
            (record { task_id = id; state = o.state; error = o.error; error_class = o.error_class })
          ∷ []);
}

abbrev pub delete_entry : ℕ → List Entry → List Entry
delete_entry id es = keep (λ e. not (e.task_id == id)) es

abbrev pub plain : TaskState → Outcome
plain s = record { state = s; error = []; error_class = [] }

-- startTask up to its goroutine. The map keeps one entry for a task.
unfoldable pub start_task : ℕ → Worker → Worker
unfolding add
start_task id w = send_update id (plain TaskState.running) (
    send_update id (plain TaskState.accepted) (record w {
      free_slots = add w.free_slots (negsuc 0);
      running_count = add w.running_count (pos 1);
      running = record { task_id = id; job = w.next_serial } ∷ delete_entry id w.running;
      jobs = record { serial = w.next_serial; task_id = id; cancelled = false } ∷ w.jobs;
      next_serial = suc w.next_serial;
    }))

-- The end of a goroutine: its update, then its deferred steps.
abbrev pub delete_job : ℕ → List Job → List Job
delete_job n [] = []
delete_job n (j ∷ js) = if j.serial == n then js else j ∷ delete_job n js

unfoldable pub end_task : Job → Outcome → Worker → Worker
unfolding add
end_task j o w =
    let w' = send_update j.task_id o w in
    record w' {
      free_slots = add w.free_slots (pos 1);
      running_count = add w.running_count (negsuc 0);
      running = delete_entry j.task_id w.running;
      jobs = delete_job j.serial w.jobs;
    }

-- Without an executor.
unfoldable pub fake_result : Job → Outcome
fake_result j = plain (if j.cancelled then TaskState.cancelled else TaskState.succeeded)

abbrev pub find_entry : ℕ → List Entry → Option ℕ
find_entry id [] = none
find_entry id (e ∷ es) = if e.task_id == id then some e.job else find_entry id es

abbrev pub cancel_job : ℕ → List Job → List Job
cancel_job n [] = []
cancel_job n (j ∷ js) =
    (if j.serial == n then record j { cancelled = true } else j) ∷ cancel_job n js

unfoldable pub cancel_task : ℕ → Worker → Worker
cancel_task id w = elim (find_entry id w.running) [
  | none ↦ w
  | some n ↦ record w { jobs = cancel_job n w.jobs }
]

-- The stream ends: the context of every task hangs on the stream's.
abbrev pub cancel_all : List Job → List Job
cancel_all [] = []
cancel_all (j ∷ js) = record j { cancelled = true } ∷ cancel_all js

unfoldable pub disconnect : Worker → Worker
disconnect w = record w { jobs = cancel_all w.jobs }

-- A tick of heartbeatLoop.
unfoldable pub beat : Worker → Worker
beat w = record w { sent = w.sent ++ (heartbeat w.running_count w.free_slots ∷ []) }

-- The wait before the next connection, in seconds, after one that failed or was closed.
unfoldable pub next_backoff : Bool → ℕ → ℕ
next_backoff false backoff = 1
next_backoff true backoff = if ltb backoff 30 then backoff * 2 else backoff

-- What happens to a worker, one after the other. `ends` is the end of the goroutine with that serial.
pub data Occurrence : Type 0 where
  starts cancels : ℕ → Occurrence
  ends : ℕ → Outcome → Occurrence
  disconnects beats : Occurrence

abbrev pub find_job : ℕ → List Job → Option Job
find_job n [] = none
find_job n (j ∷ js) = if j.serial == n then some j else find_job n js

abbrev pub end_found : Option Job → Outcome → Worker → Worker
end_found none o w = w
end_found (some j) o w = end_task j o w

unfoldable pub step : Occurrence → Worker → Worker
unfolding start_task end_task cancel_task disconnect beat
step (starts id) w = start_task id w
step (cancels id) w = cancel_task id w
step (ends n o) w = end_found (find_job n w.jobs) o w
step disconnects w = disconnect w
step beats w = beat w

unfoldable pub run : List Occurrence → Worker → Worker
unfolding step
run [] w = w
run (e ∷ es) w = run es (step e w)

-- The goroutines end, each with its outcome.
unfoldable pub drain : (Job → Outcome) → List Job → Worker → Worker
unfolding end_task
drain o [] w = w
drain o (j ∷ js) w = drain o js (end_task j (o j) w)
