-- ===== src/Runner/Executor.antt =====
-- internal/runner/executor.go: Run, pumpUserLog and killGroup. The state has the task's directory (`disk`), the
-- environments with the messages to the outbox (`deps`), and the process groups that were killed.
use crawler_lite.Prelude.Base.{
  ℕ, Bool, true, false, Option, none, some, List, [], ◌∷◌, ◌++◌, take, ltb, length, if◌then◌else◌,
}
use crawler_lite.Prelude.Int.{ℤ, pos, leb_ℤ}
use crawler_lite.Prelude.Text.{Str, Unicode, codes}
use crawler_lite.Result.{Error, error_text, Result, ok, err}
use crawler_lite.Notify.Format.{decimal}
use crawler_lite.Hub.Model.{TaskState, WorkerMsg, log_line}
use crawler_lite.Runner.Outcome.{
  Outcome, ContextErr, Event, Pump, emit, on_event, fresh, classify_outcome,
}
use crawler_lite.Runner.Unzip.{Disk, removes, call}
use crawler_lite.Runner.Interpreter.{Tools, TaskExecutor, State, resolve_interpreter}

-- An assignment, with the JSON texts of the configuration and of the arguments.
pub record Assignment : Type 0 where
  pub task_id : ℕ
  pub spider_id : ℕ
  pub config_json : Str
  pub args_json : Str
  pub proxy_url : Str
  pub timeout_s : ℤ

-- What the subprocess writes, in the order in which the three pumps send it on, with the time.
pub data Output : Type 0 where
  on_fd3 : ℤ → Event → Output
  on_stdout on_stderr : ℤ → Str → Output

-- A subprocess that was started: its output, the errors of the two contexts and of Wait, and its number.
pub record Child : Type 0 where
  pub output : List Output
  pub parent_ctx : ContextErr
  pub run_ctx : ContextErr
  pub wait_err : Option Str
  pub pid : ℤ

-- The steps up to the start that can fail, and a start.
pub data Spawn : Type 0 where
  pipe_fails stdout_fails stderr_fails start_fails : Error → Spawn
  started : Child → Spawn

pub record Command : Type 0 where
  pub exe : Str
  pub dir : Str
  pub env : List Str
  -- in seconds
  pub timeout : ℤ

pub record RunState (Os : Type 0) : Type 0 where
  pub disk : Disk
  pub deps : State Os
  pub killed : List ℤ

-- Ten minutes where the assignment gives no time.
abbrev pub timeout_of : ℤ → ℤ
timeout_of t = if leb_ℤ t (pos 0) then pos 600 else t

unfoldable pub command_of : Str → Str → Str → Assignment → Command
unfolding decimal
command_of py_exe dir presign_base a = record {
  exe = py_exe;
  dir = dir;
  env =
      codes "PYTHONUNBUFFERED=1"
      ∷ (codes "CRAWLERKIT_TASK_ID=" ++ decimal a.task_id)
      ∷ (codes "CRAWLERKIT_SPIDER_ID=" ++ decimal a.spider_id)
      ∷ codes "CRAWLERKIT_EVENT_FD=3"
      ∷ (codes "CRAWLERKIT_CONFIG=" ++ a.config_json)
      ∷ (codes "CRAWLERKIT_ARGS=" ++ a.args_json)
      ∷ (codes "CRAWLERKIT_PROXY_URL=" ++ a.proxy_url)
      ∷ (codes "CRAWLERKIT_PRESIGN_PUT=" ++ presign_base)
      ∷ [];
  timeout = timeout_of a.timeout_s;
}

-- pumpUserLog on a line.
abbrev pub user_log : ℕ → ℤ → Str → Str → WorkerMsg
user_log task now level line =
    log_line (record { task_id = task; ts_ns = now; level = level; message = line })

-- The three pumps.
unfoldable pub pump_output : ℕ → List Output → Pump → Pump
unfolding on_event
pump_output task [] p = p
pump_output task (on_fd3 now e ∷ rest) p = pump_output task rest (on_event task now e p)
pump_output task (on_stdout now line ∷ rest) p =
    pump_output task rest (emit (user_log task now (codes "INFO") line) p)
pump_output task (on_stderr now line ∷ rest) p =
    pump_output task rest (emit (user_log task now (codes "ERROR") line) p)

abbrev pub failed : Str → Str → Outcome
failed class message = record { state = TaskState.failed; error = message; error_class = class }

abbrev pub is_timeout : Option Outcome → Bool
is_timeout none = false
is_timeout (some o) = elim o.state [ TaskState.timeout ↦ true | _ ↦ false ]

abbrev pub deps_limit : ℕ
deps_limit = 2048

-- `stderr[:2048]` where it is longer
abbrev pub cut : Str → Str
cut s = if ltb deps_limit (length s) then take deps_limit s else s

-- A presigned URL that is not to be had is left empty.
abbrev pub presigned : Result Str → Str
presigned (ok url) = url
presigned (err e) = []

module _ {Os : Type 0} (tools : Tools Os) (spawn : Command → Os → Spawn × Os) where
  -- killGroup
  abbrev pub kill_group : ℤ → RunState Os → RunState Os
  kill_group pid s = if leb_ℤ pid (pos 0) then s else record s { killed = pid ∷ s.killed }

  -- Run from the start of the subprocess.
  unfoldable pub wait_child : ℕ → Child → RunState Os → Option Outcome × RunState Os
  unfolding pump_output classify_outcome
  wait_child task ch s =
      let p = pump_output task ch.output fresh in
      let o =
        classify_outcome ch.parent_ctx ch.run_ctx ch.wait_err p.seen p.captcha_message
          p.last_error in
      let s' = record s { deps = record s.deps { sent = s.deps.sent ++ p.sent } } in
      (o, if is_timeout o then kill_group ch.pid s' else s')

  unfoldable pub spawned : ℕ → Spawn → RunState Os → Option Outcome × RunState Os
  unfolding wait_child
  spawned task (pipe_fails e) s = (some (failed (codes "pipe") (error_text e)), s)
  spawned task (stdout_fails e) s = (some (failed (codes "stdout") (error_text e)), s)
  spawned task (stderr_fails e) s = (some (failed (codes "stderr") (error_text e)), s)
  spawned task (start_fails e) s = (some (failed (codes "spawn") (error_text e)), s)
  spawned task (started ch) s = wait_child task ch s

  unfoldable pub with_interpreter :
      Assignment → Str → Str → Result Str → RunState Os → Option Outcome × RunState Os
  unfolding spawned command_of
  with_interpreter a dir base (err e) s = (some (failed (codes "deps") (cut (error_text e))), s)
  with_interpreter a dir base (ok py_exe) s =
      let (x, os) = spawn (command_of py_exe dir base a) s.deps.os in
      spawned a.task_id x (record s { deps = record s.deps { os = os } })

  -- The deferred os.RemoveAll.
  abbrev pub removing : Str → Option Outcome × RunState Os → Option Outcome × RunState Os
  removing dir (o, s) = (o, record s { disk = (call (removes dir) s.disk).1 })

  -- Run behind prepareDir.
  unfoldable pub run_prepared :
      Unicode
      → TaskExecutor
      → Assignment
      → Result Str
      → Result Str × Disk
      → State Os
      → Option Outcome × RunState Os
  unfolding with_interpreter resolve_interpreter call
  run_prepared u c a presign (err e, disk) s = (
    some (failed (codes "prepare") (error_text e)),
    record { disk = disk; deps = s; killed = [] },
  )
  run_prepared u c a presign (ok dir, disk) s =
      let (r, s') = resolve_interpreter tools u c a.task_id dir s in
      removing dir (
        with_interpreter a dir (presigned presign) r
          (record { disk = disk; deps = s'; killed = [] }))

  -- Run. `prepare` is prepareDir for the assignment, and `presign` the answer of PresignPut.
  unfoldable pub run :
      Unicode
      → TaskExecutor
      → Assignment
      → Result Str
      → (Disk → Result Str × Disk)
      → Disk
      → State Os
      → Option Outcome × RunState Os
  unfolding run_prepared
  run u c a presign prepare disk s = run_prepared u c a presign (prepare disk) s
