-- ===== src/Tests/Interpreter.antt =====
-- internal/runner/executor.go, resolveInterpreter and Run, over a disk that keeps the environments.
use crawler_lite.Runner.Installed.{Ended, Lawful, Given, resolve_lem}
use crawler_lite.Result.{Result, ok}
use mathlib.Core.Bool.{false≢true}
use crawler_lite.Prelude.Base.{
  ◌≡◌, ◌≢◌, refl, true, false, Bool, Option, none, some, List, [], ◌∷◌, if◌then◌else◌,
}
use crawler_lite.Prelude.Int.{pos}
use crawler_lite.Prelude.Text.{Str, codes, str_eq, str_eq_ne, str_eq_refl, ascii_only}
use crawler_lite.Prelude.Path.{join}
use crawler_lite.Runner.Interpreter.{
  Tools, UvRun, exited, content, TaskExecutor, State, python_in, new_task_executor,
  resolve_interpreter,
}
use crawler_lite.Runner.Unzip
use crawler_lite.Runner.Executor.{Assignment, Child, Command, Spawn, on_stdout, on_fd3, started}
use crawler_lite.Runner.Ends.{Ends}
use crawler_lite.Runner.Outcome.{captcha_event, live, deadline_exceeded}

-- For each interpreter on the disk, whether its installation is complete.
abbrev Disk : Type 0
Disk = Str → Option Bool

abbrev put : Str → Option Bool → Disk → Disk
put p x disk q = if str_eq q p then x else disk q

abbrev is_there : Option Bool → Bool
is_there none = false
is_there (some _) = true

-- `uv venv v` makes an interpreter, and `uv pip install --python p` completes it.
abbrev uv : List Str → Disk → UvRun × Disk
uv (_ ∷ venv ∷ _ ∷ _ ∷ []) disk = (exited [] none, put (python_in venv) (some false) disk)
uv (_ ∷ _ ∷ _ ∷ p ∷ _ ∷ _) disk = (exited [] none, put p (some true) disk)
uv _ disk = (exited [] none, disk)

abbrev tools : Tools Disk
tools = record {
  read_file = λ p disk. content (codes "requests");
  stat_ok = λ p disk. is_there (disk p);
  mkdir_all = λ p disk. (ok tt, disk);
  remove_all = λ venv disk. (ok tt, put (python_in venv) none disk);
  run_uv = uv;
  sha256_hex = λ bytes. codes "0123456789abcdef01234567";
  now = λ disk. pos 7;
}

abbrev given : TaskExecutor
given = record { py_path = []; work_dir = []; venv_dir = []; uv_path = []; crawlerkit_path = [] }

abbrev executor : TaskExecutor
executor = new_task_executor (codes "/usr/bin/uv") given

abbrev Complete : Str → Disk → Type 0
Complete p disk = disk p ≡ some true

put_other : (p q : Str) (x : Option Bool) (disk : Disk) → q ≢ p → put p x disk q ≡ disk q
put_other p q x disk ne = rw (str_eq_ne q p ne) refl

put_same : (p : Str) (x : Option Bool) (disk : Disk) → put p x disk p ≡ x
put_same p x disk = rw (str_eq_refl p) refl

apart :
    (p q : Str) (x : Option Bool) (disk : Disk)
    → q ≢ p
    → (is_there (put p x disk q) ≡ is_there (disk q))
      × (disk q ≡ some true → put p x disk q ≡ some true)
apart p q x disk ne = let e = put_other p q x disk ne in (rw e refl, λ h. rw e h)

tools-Lawful : Lawful tools executor Complete
unfolding new_task_executor
tools-Lawful = record {
  mkdir_apart = λ b disk. (refl, λ h. h);
  venv_apart = λ a disk b ne. apart _ _ (some false) disk ne;
  install_apart = λ a req_path disk b ne. apart _ _ (some true) disk ne;
  install_done = λ a req_path disk lines e. put_same _ (some true) disk;
  remove_apart = λ a disk b ne. apart _ _ none disk ne;
  remove_gone = λ a disk q. rw (put_same _ none disk) refl;
}

abbrev start : State Disk
start = record { os = λ p. none; sent = [] }

resolve_example :
    let (r, s') = resolve_interpreter tools ascii_only executor 9 (codes "/tmp/task-9") start in
    Ended tools executor Complete
      (tools.read_file (join (codes "/tmp/task-9") (codes "requirements.txt")) start.os)
      (r, s')
    × ((p : Str)
        → r ≡ ok p
        → Given tools executor Complete
            (tools.read_file (join (codes "/tmp/task-9") (codes "requirements.txt")) start.os)
            s'.os
            p)
resolve_example =
    resolve_lem tools executor Complete ascii_only 9 (codes "/tmp/task-9") start tools-Lawful
      (λ b there. absurd (false≢true there))

abbrev assignment : Assignment
assignment = record {
  task_id = 9;
  spider_id = 4;
  config_json = codes "{}";
  args_json = codes "{}";
  proxy_url = [];
  timeout_s = pos 0;
}

-- A subprocess that writes a line and an event, and is then stopped by the deadline.
abbrev child : Child
child = record {
  output =
      on_stdout (pos 8) (codes "hello") ∷ on_fd3 (pos 9) (captcha_event (codes "blocked")) ∷ [];
  parent_ctx = live;
  run_ctx = deadline_exceeded;
  wait_err = some (codes "signal: killed");
  pid = pos 77;
}

abbrev spawn : Command → Disk → Spawn × Disk
spawn command disk = (started child, disk)

abbrev made : Unzip.Disk → Result Str × Unzip.Disk
made disk = (ok (codes "/tmp/task-9"), disk)

abbrev work : Unzip.Disk
work = record { tables = []; faults = [] }
