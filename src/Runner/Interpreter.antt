-- ===== src/Runner/Interpreter.antt =====
-- internal/runner/executor.go: NewTaskExecutor, resolveInterpreter and runUVStreamed, over the calls of the
-- operating system. The lock of a requirements' hash makes a resolution one step for its environment.
use crawler_lite.Prelude.Base.{
  ℕ, Bool, Option, none, some, List, [], ◌∷◌, ◌++◌, take, if◌then◌else◌,
}
use crawler_lite.Prelude.Int.{ℤ}
use crawler_lite.Prelude.Text.{Str, Unicode, codes, is_empty}
use crawler_lite.Prelude.Path.{join}
use crawler_lite.Result.{Error, failure, wrapped, error_text, Result, ok, err}
use crawler_lite.Hub.Model.{WorkerMsg}
use crawler_lite.Runner.Tail.{add, deps_log, uv_error}

-- os.ReadFile: the content, an error that is os.ErrNotExist, or another error.
pub data ReadFile : Type 0 where
  content : Str → ReadFile
  not_exist : ReadFile
  unreadable : Error → ReadFile

-- A line of uv's output with the time at which it is read.
pub data OutputLine : Type 0 where
  on_stdout on_stderr : ℤ → Str → OutputLine

-- A run of uv: it does not start, for a pipe or for the start itself; or its two streams are read, in
-- some order of their lines, and Wait gives an error or none.
pub data UvRun : Type 0 where
  no_pipe no_start : Error → UvRun
  exited : List OutputLine → Option Error → UvRun

-- The calls of the operating system, whose state is `Os`. A failure of RemoveAll is passed over.
pub record Tools (Os : Type 0) : Type 0 where
  pub read_file : Str → Os → ReadFile
  pub stat_ok : Str → Os → Bool
  pub mkdir_all : Str → Os → Result (Unit {0}) × Os
  pub remove_all : Str → Os → Result (Unit {0}) × Os
  pub run_uv : List Str → Os → UvRun × Os
  pub sha256_hex : Str → Str
  pub now : Os → ℤ

pub record TaskExecutor : Type 0 where
  pub py_path : Str
  pub work_dir : Str
  pub venv_dir : Str
  pub uv_path : Str
  pub crawlerkit_path : Str

abbrev pub or_else : Str → Str → Str
or_else s default = if is_empty s then default else s

-- NewTaskExecutor. `look_path` is the answer of exec.LookPath("uv"), empty where it fails.
unfoldable pub new_task_executor : Str → TaskExecutor → TaskExecutor
new_task_executor look_path c = record {
  py_path = or_else c.py_path (codes "python3");
  work_dir = or_else c.work_dir (codes "/tmp/crawler-lite");
  venv_dir = or_else c.venv_dir (codes "/var/lib/crawler-lite/venvs");
  uv_path = or_else c.uv_path look_path;
  crawlerkit_path = c.crawlerkit_path;
}

-- The operating system, and the messages put into the outbox, the first one first.
pub record State (Os : Type 0) : Type 0 where
  pub os : Os
  pub sent : List WorkerMsg

unfoldable pub python_in : Str → Str
unfolding join
python_in venv = join (join venv (codes "bin")) (codes "python")

unfoldable pub venv_of : Str → Str → Str
unfolding join
venv_of venv_dir hash = join venv_dir (take 16 hash)

abbrev pub venv_args : Str → Str → List Str
venv_args venv py_path = codes "venv" ∷ venv ∷ codes "--python" ∷ py_path ∷ []

abbrev pub install_args : Str → Str → Str → List Str
install_args py_exe req_path crawlerkit_path =
    (codes "pip" ∷ codes "install" ∷ codes "--python" ∷ py_exe ∷ codes "-r" ∷ req_path ∷ [])
    ++ (if is_empty crawlerkit_path then [] else (crawlerkit_path ++ codes "[selenium]") ∷ [])

-- streamUV on both streams: the tail of stderr, and the messages.
unfoldable pub stream_both :
    Unicode → ℕ → List OutputLine → List Str × List WorkerMsg → List Str × List WorkerMsg
stream_both u task [] (tail, out) = (tail, out)
stream_both u task (on_stdout now line ∷ rest) (tail, out) =
    stream_both u task rest (tail, out ++ (deps_log task now (codes "INFO") line ∷ []))
stream_both u task (on_stderr now line ∷ rest) (tail, out) =
    stream_both u task rest (add u line tail, out ++ (deps_log task now (codes "INFO") line ∷ []))

module _ {Os : Type 0} (tools : Tools Os) where
  -- emitDepsLog
  abbrev pub emit_deps_log : ℕ → Str → Str → State Os → State Os
  emit_deps_log task level message s = record s {
    sent = s.sent ++ (deps_log task (tools.now s.os) level message ∷ []);
  }

  abbrev pub uv_answer : List Str → List Str → Option Error → Result (Unit {0})
  uv_answer args tail none = ok tt
  uv_answer args tail (some e) = err (failure (uv_error args tail (error_text e)))

  abbrev pub streamed :
      Unicode → ℕ → List Str → List WorkerMsg → UvRun × Os → Result (Unit {0}) × State Os
  streamed u task args sent (no_pipe e, os) = (err e, record { os = os; sent = sent })
  streamed u task args sent (no_start e, os) =
      (err (wrapped (codes "start uv") e), record { os = os; sent = sent })
  streamed u task args sent (exited lines wait, os) =
      let (tail, out) = stream_both u task lines ([], sent) in
      (uv_answer args tail wait, record { os = os; sent = out })

  -- runUVStreamed
  unfoldable pub run_uv_streamed : Unicode → ℕ → List Str → State Os → Result (Unit {0}) × State Os
  unfolding stream_both
  run_uv_streamed u task args s = streamed u task args s.sent (tools.run_uv args s.os)

  -- The failure of a step of the installation removes the environment; a failure of RemoveAll is dropped.
  abbrev pub discard : Str → Error → State Os → Result Str × State Os
  discard venv e s = (err e, record s { os = (tools.remove_all venv s.os).1 })

  -- The last look at the interpreter.
  abbrev pub sanity_check : Str → Str → State Os → Result Str × State Os
  sanity_check venv py_exe s =
      if tools.stat_ok py_exe s.os
      then (ok py_exe, s)
      else discard venv (failure (codes "venv interpreter missing after install: " ++ py_exe)) s

  abbrev pub installed : Str → Str → Result (Unit {0}) × State Os → Result Str × State Os
  installed venv py_exe (err e, s) = discard venv e s
  installed venv py_exe (ok _, s) = sanity_check venv py_exe s

  unfoldable pub install_into :
      Unicode → TaskExecutor → ℕ → Str → Str → Result (Unit {0}) × State Os → Result Str × State Os
  unfolding run_uv_streamed python_in
  install_into u c task venv req_path (err e, s) = discard venv e s
  install_into u c task venv req_path (ok _, s) =
      installed venv (python_in venv)
        (run_uv_streamed u task (install_args (python_in venv) req_path c.crawlerkit_path) s)

  unfoldable pub make_venv :
      Unicode
      → TaskExecutor
      → ℕ
      → Str
      → Str
      → Result (Unit {0}) × Os
      → List WorkerMsg
      → Result Str × State Os
  unfolding install_into run_uv_streamed
  make_venv u c task venv req_path (err e, os) sent =
      (err (wrapped (codes "mkdir venv parent") e), record { os = os; sent = sent })
  make_venv u c task venv req_path (ok _, os) sent =
      install_into u c task venv req_path
        (run_uv_streamed u task (venv_args venv c.py_path) (record { os = os; sent = sent }))

  -- Behind the lock.
  unfoldable pub find_or_make :
      Unicode → TaskExecutor → ℕ → Str → Str → State Os → Result Str × State Os
  unfolding make_venv python_in
  find_or_make u c task venv req_path s =
      let py_exe = python_in venv in
      let s' = emit_deps_log task (codes "INFO") (codes "resolving spider deps into " ++ venv) s in
      if tools.stat_ok py_exe s.os
      then (ok py_exe, s)
      else make_venv u c task venv req_path (tools.mkdir_all c.venv_dir s'.os) s'.sent

  unfoldable pub resolve_read :
      Unicode → TaskExecutor → ℕ → Str → ReadFile → State Os → Result Str × State Os
  unfolding find_or_make venv_of
  resolve_read u c task req_path not_exist s = (ok c.py_path, s)
  resolve_read u c task req_path (unreadable e) s =
      (err (wrapped (codes "read requirements.txt") e), s)
  resolve_read u c task req_path (content bytes) s =
      if is_empty c.uv_path
      then (
        ok c.py_path,
        emit_deps_log task (codes "WARN")
            (codes
              "requirements.txt present but uv is not installed; spider deps will not be resolved")
            s,
      )
      else find_or_make u c task (venv_of c.venv_dir (tools.sha256_hex bytes)) req_path s

  -- resolveInterpreter
  unfoldable pub resolve_interpreter :
      Unicode → TaskExecutor → ℕ → Str → State Os → Result Str × State Os
  unfolding resolve_read join
  resolve_interpreter u c task dir s =
      let req_path = join dir (codes "requirements.txt") in
      resolve_read u c task req_path (tools.read_file req_path s.os) s
