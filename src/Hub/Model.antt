-- ===== src/Hub/Model.antt =====
-- internal/hub/hub.go and proto/worker: the messages, the sessions and the hub's two maps.
use crawler_lite.Prelude.Base.{
  ℕ, ◌==◌, Bool, true, false, Option, none, some, List, [], ◌∷◌, if◌then◌else◌,
}
use crawler_lite.Prelude.Int.{ℤ}
use crawler_lite.Prelude.Text.{Str}
use crawler_lite.Task.Model.{Status, AssignTask}

pub data TaskState : Type 0 where
  unspecified accepted running succeeded failed cancelled timeout captcha : TaskState

pub record LogLine : Type 0 where
  pub task_id : ℕ
  pub ts_ns : ℤ
  pub level : Str
  pub message : Str

pub record ArtifactRef : Type 0 where
  pub task_id : ℕ
  pub kind : Str
  pub name : Str
  pub storage_key : Str
  pub url : Str
  pub width : ℤ
  pub height : ℤ
  pub bytes : ℤ

pub record Hello : Type 0 where
  pub worker_id : Str
  pub version : Str
  pub concurrency : ℤ
  pub capabilities : List Str
  pub shared_secret : Str

pub record TaskUpdate : Type 0 where
  pub task_id : ℕ
  pub state : TaskState
  pub error : Str
  pub error_class : Str

pub data WorkerMsg : Type 0 where
  hello : Hello → WorkerMsg
  heartbeat : ℤ → ℤ → WorkerMsg
  task_update : TaskUpdate → WorkerMsg
  log_line : LogLine → WorkerMsg
  item : ℕ → Str → WorkerMsg
  artifact : ArtifactRef → WorkerMsg
  unknown : WorkerMsg

pub data MasterMsg : Type 0 where
  welcome : ℕ → MasterMsg
  assign_task : AssignTask → MasterMsg
  cancel_task : ℕ → MasterMsg
  ping : MasterMsg

-- A session's UUID stands as a number. `running` is a set of task ids, without repetition, and
-- `outbox` a channel of 64 messages, the next one to send first.
pub record Session : Type 0 where
  pub worker_id : Str
  pub session_id : ℕ
  pub capabilities : List Str
  pub concurrency : ℤ
  pub free_slots : ℤ
  pub running_tasks : ℤ
  pub outbox : List MasterMsg
  pub running : List ℕ

pub record TaskMeta : Type 0 where
  pub session_id : ℕ
  pub spider_id : ℕ

pub data SinkWrite : Type 0 where
  log_write : LogLine → SinkWrite
  item_write : ℕ → ℕ → Str → SinkWrite
  artifact_write : ArtifactRef → SinkWrite

pub record Sinks : Type 0 where
  pub has_log : Bool
  pub has_item : Bool
  pub has_artifact : Bool

-- `gone` holds the sessions whose outbox is closed, and `written` what the sinks were given, the
-- latest first.
pub record WorkerHub : Type 0 where
  pub sessions : List Session
  pub tasks : List (ℕ × TaskMeta)
  pub gone : List ℕ
  pub sinks : Sinks
  pub shared_secret : Str
  pub written : List SinkWrite

abbrev pub outbox_cap : ℕ
outbox_cap = 64

-- The map of sessions.
abbrev pub find_session : ℕ → List Session → Option Session
find_session id [] = none
find_session id (s ∷ ss) = if s.session_id == id then some s else find_session id ss

-- A write through a session pointer.
abbrev pub update_session : ℕ → (Session → Session) → List Session → List Session
update_session id f [] = []
update_session id f (s ∷ ss) = if s.session_id == id then f s ∷ ss else s ∷ update_session id f ss

abbrev pub remove_session : ℕ → List Session → List Session
remove_session id [] = []
remove_session id (s ∷ ss) =
    let rest = remove_session id ss in if s.session_id == id then rest else s ∷ rest

-- The map of tasks: one entry to a task.
abbrev pub find_meta : ℕ → List (ℕ × TaskMeta) → Option TaskMeta
find_meta id [] = none
find_meta id ((k, m) ∷ ts) = if k == id then some m else find_meta id ts

abbrev pub delete_meta : ℕ → List (ℕ × TaskMeta) → List (ℕ × TaskMeta)
delete_meta id [] = []
delete_meta id ((k, m) ∷ ts) =
    let rest = delete_meta id ts in if k == id then rest else (k, m) ∷ rest

abbrev pub put_meta : ℕ → TaskMeta → List (ℕ × TaskMeta) → List (ℕ × TaskMeta)
put_meta id m ts = (id, m) ∷ delete_meta id ts

-- The entries of other sessions.
abbrev pub drop_session : ℕ → List (ℕ × TaskMeta) → List (ℕ × TaskMeta)
drop_session sid [] = []
drop_session sid ((k, m) ∷ ts) =
    let rest = drop_session sid ts in if m.session_id == sid then rest else (k, m) ∷ rest

-- A set of task ids.
abbrev pub delete_id : ℕ → List ℕ → List ℕ
delete_id id [] = []
delete_id id (x ∷ xs) = let rest = delete_id id xs in if x == id then rest else x ∷ rest

abbrev pub insert_id : ℕ → List ℕ → List ℕ
insert_id id xs = id ∷ delete_id id xs

-- internal/hub/hub.go, mapState; the empty status is `none`
unfoldable pub map_state : TaskState → Option Status
map_state unspecified = none
map_state accepted = some Status.running
map_state running = some Status.running
map_state succeeded = some Status.succeeded
map_state failed = some Status.failed
map_state cancelled = some Status.cancelled
map_state timeout = some Status.timeout
map_state captcha = some Status.captcha_blocked

-- internal/hub/hub.go, isTerminal
unfoldable pub is_terminal : TaskState → Bool
is_terminal unspecified = false
is_terminal accepted = false
is_terminal running = false
is_terminal _ = true
