-- ===== src/Schedule/Model.antt =====
-- internal/schedule/service.go: schedules, the inputs of the service, and the table.
use crawler_lite.Prelude.Base.{ℕ, Bool, Option, List}
use crawler_lite.Prelude.Text.{Str}
use crawler_lite.Prelude.Json.{Fields}
use crawler_lite.Spider.Model.{Time}

-- A task reference of 0 is an absent one, and a nil map of arguments is stored as the empty object.
pub record Schedule : Type 0 where
  pub id : ℕ
  pub spider_id : ℕ
  pub name : Str
  pub cron_expr : Str
  pub args : Fields
  pub enabled : Bool
  pub last_run_at : Option Time
  pub last_task_id : ℕ
  pub next_run_at : Option Time
  pub created_at : Time
  pub updated_at : Time

pub record CreateInput : Type 0 where
  pub spider_id : ℕ
  pub name : Str
  pub cron_expr : Str
  pub args : Option Fields
  pub enabled : Bool
  pub created_by : ℕ

pub record UpdateInput : Type 0 where
  pub name : Str
  pub cron_expr : Str
  pub args : Option Fields
  pub enabled : Bool

-- The table in the order of ids. The creator's column is written and never read.
pub record Tables : Type 0 where
  pub schedules : List Schedule
  pub next_id : ℕ

-- The cron library: the parser of five fields, with the next time of what it parsed, and whether
-- AddFunc of a new daemon takes an expression.
pub record Cron : Type 0 where
  pub parse : Str → Option (Time → Time)
  pub accepts : Str → Bool
