-- ===== src/Runner/Ends.antt =====
-- internal/runner/executor.go, Run: how a run ends, and what the retry policy makes of it.
use crawler_lite.Runner.Executor.{
  cut, Assignment, Child, Spawn, pipe_fails, stdout_fails, stderr_fails, start_fails, started,
  Command, RunState, command_of, failed, is_timeout, presigned,
}
use crawler_lite.Prelude.Base.{none, ℕ, ◌≡◌, some, Option, List, [], ◌∷◌, if◌then◌else◌}
use crawler_lite.Result.{error_text, Error, Result, ok, err}
use crawler_lite.Runner.Refused.{events_of, NeverRetried}
use crawler_lite.Prelude.Int.{leb_ℤ, ℤ, pos}
use crawler_lite.Prelude.Text.{Str, Unicode, codes}
use crawler_lite.Runner.Outcome.{Outcome, run_result}
use crawler_lite.Runner.Unzip.{Disk, removes, call}
use crawler_lite.Runner.Interpreter.{Tools, TaskExecutor, State, resolve_interpreter}

-- The process groups that are killed in the end.
abbrev pub killed_of : Option Outcome → ℤ → List ℤ
killed_of o pid = if is_timeout o then if leb_ℤ pid (pos 0) then [] else pid ∷ [] else []

-- The directory that was made is removed last.
abbrev pub Removed : Result Str × Disk → Disk → Type 0
Removed (err e, disk) disk' = disk' ≡ disk
Removed (ok dir, disk) disk' = disk' ≡ (call (removes dir) disk).1

-- The step that fails before the subprocess is started, by its class, and its error.
abbrev pub failed_step : Spawn → Option (Str × Error)
failed_step (pipe_fails e) = some (codes "pipe", e)
failed_step (stdout_fails e) = some (codes "stdout", e)
failed_step (stderr_fails e) = some (codes "stderr", e)
failed_step (start_fails e) = some (codes "spawn", e)
failed_step (started ch) = none

module _ {Os : Type 0} (tools : Tools Os) (spawn : Command → Os → Spawn × Os) where
  -- A run ends with the failure of the step before the start of the subprocess, with a class that no
  -- policy retries; or as the result of the subprocess that was started on its event stream, whatever the
  -- other output is, and then its process group is killed exactly after a timeout.
  pub data SpawnEnds (u : Unicode) (task : ℕ) (x : Spawn) (r : Option Outcome × RunState Os)
      : Type 0 where
    not_started :
        (class : Str) (e : Error)
        → failed_step x ≡ some (class, e)
        → NeverRetried u class
        → r.0 ≡ some (failed class (error_text e))
        → r.1.killed ≡ []
        → SpawnEnds u task x r
    ran :
        (ch : Child)
        → x ≡ started ch
        → r.0 ≡ run_result task (events_of ch.output) ch.parent_ctx ch.run_ctx ch.wait_err
        → r.1.killed ≡ killed_of (r.0) ch.pid
        → SpawnEnds u task x r

  -- The same for the whole run: it ends where prepareDir fails, where the interpreter is not to be had, or
  -- as the command with that interpreter, the directory and the environment ends.
  pub data Ends (u : Unicode) (c : TaskExecutor) (a : Assignment) (presign : Result Str)
      (prepared : Result Str × Disk) (s : State Os) (r : Option Outcome × RunState Os)
      : Type 0 where
    not_prepared :
        (e : Error)
        → prepared.0 ≡ err e
        → NeverRetried u (codes "prepare")
        → r.0 ≡ some (failed (codes "prepare") (error_text e))
        → r.1.killed ≡ []
        → Ends u c a presign prepared s r
    no_interpreter :
        (dir : Str) (e : Error)
        → prepared.0 ≡ ok dir
        → (resolve_interpreter tools u c a.task_id dir s).0 ≡ err e
        → r.0 ≡ some (failed (codes "deps") (cut (error_text e)))
        → r.1.killed ≡ []
        → Ends u c a presign prepared s r
    spawns :
        (dir py_exe : Str)
        → prepared.0 ≡ ok dir
        → (resolve_interpreter tools u c a.task_id dir s).0 ≡ ok py_exe
        → SpawnEnds u a.task_id
            (spawn
              (command_of py_exe dir (presigned presign) a)
              (resolve_interpreter tools u c a.task_id dir s).1.os).0
            r
        → Ends u c a presign prepared s r
