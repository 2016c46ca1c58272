-- ===== src/Task/Model.antt =====
-- internal/task/service.go: the domain types, the event of internal/notify/notify.go that OnUpdate
-- sends, and the interface to the hub.
use crawler_lite.Prelude.Base.{ℕ, Bool, true, false, Option, List}
use crawler_lite.Prelude.Int.{ℤ}
use crawler_lite.Prelude.Text.{Str, Unicode}
use crawler_lite.Prelude.Json.{Fields}
use crawler_lite.Result.{Result}
use crawler_lite.Spider.Model.{Time, Spider}

pub data Status : Type 0 where
  queued running succeeded failed cancelled timeout captcha_blocked : Status

pub data Trigger : Type 0 where
  manual schedule retry api : Trigger

-- The row of a task. A reference of 0 is an absent one, and `none` is a nil map or time.
pub record Task : Type 0 where
  pub id : ℕ
  pub spider_id : ℕ
  pub parent_task_id : ℕ
  pub trigger : Trigger
  pub status : Status
  pub spider_version : ℤ
  pub worker_id : Str
  pub queued_at : Time
  pub started_at : Option Time
  pub finished_at : Option Time
  pub error : Str
  pub error_class : Str
  pub stats : Fields
  pub triggered_args : Option Fields
  pub attempt : ℤ
  pub not_before : Option Time

-- `trigger` is empty where the caller leaves it out.
pub record CreateInput : Type 0 where
  pub spider_id : ℕ
  pub trigger : Option Trigger
  pub spider_version : ℤ
  pub triggered_args : Option Fields
  pub created_by : ℕ
  pub parent_task_id : ℕ
  pub attempt : ℤ
  pub not_before : Option Time

-- The wire message to a worker; its JSON documents stand as the values that they encode.
pub record AssignTask : Type 0 where
  pub task_id : ℕ
  pub spider_id : ℕ
  pub spider_version : ℤ
  pub source_key : Str
  pub entry_module : Str
  pub config : Fields
  pub args : Fields
  pub proxy_url : Str
  pub timeout_s : ℤ

pub record Event : Type 0 where
  pub kind : Status
  pub task_id : ℕ
  pub spider_id : ℕ
  pub spider_name : Str
  pub error_class : Str
  pub error_message : Str
  pub attempt : ℤ
  pub max_attempts : ℤ
  pub will_retry : Bool
  pub finished_at : Time

-- The hub as the service sees it, over a state `H`.
pub record HubOps (H : Type 0) : Type 0 where
  pub assign : AssignTask → H → Result Bool × H
  pub cancel_running : ℕ → H → Result (Unit {0}) × H

-- The tables, with the outcome of the statements to come: `some` is a statement that fails with that
-- message, and past the end of the list every statement succeeds.
pub record Db : Type 0 where
  pub tasks : List Task
  pub next_id : ℕ
  pub spiders : List Spider
  pub faults : List (Option Str)

-- The service's state and surroundings. `sent` lists the events handed to the notifier, latest
-- first; `wakeup` is the one slot of the wakeup channel.
pub record World (H : Type 0) : Type 0 where
  pub db : Db
  pub now : Time
  pub wakeup : Bool
  pub hub : H
  pub sent : List Event

pub record Deps : Type 0 where
  pub unicode : Unicode
  pub default_timeout_seconds : ℤ
  pub has_notifier : Bool

-- internal/task/service.go, isTerminalStatus
abbrev pub is_terminal_status : Status → Bool
is_terminal_status queued = false
is_terminal_status running = false
is_terminal_status _ = true

abbrev pub is_queued : Status → Bool
is_queued queued = true
is_queued _ = false

abbrev pub is_running : Status → Bool
is_running running = true
is_running _ = false

-- The statuses that OnUpdate considers for a retry.
abbrev pub may_retry : Status → Bool
may_retry failed = true
may_retry timeout = true
may_retry _ = false
