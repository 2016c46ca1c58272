-- ===== src/Spider/Model.antt =====
-- internal/spider/service.go: the domain object and the inputs of the service.
use crawler_lite.Prelude.Base.{ℕ, Option}
use crawler_lite.Prelude.Int.{ℤ}
use crawler_lite.Prelude.Text.{Str}
use crawler_lite.Prelude.Json.{Fields}

-- A nanosecond of the wall clock.
abbrev pub Time : Type 0
Time = ℤ

pub data SpiderStatus : Type 0 where
  active paused archived : SpiderStatus

-- `config` is a nil map where it is absent.
pub record Spider : Type 0 where
  pub id : ℕ
  pub project_id : ℕ
  pub name : Str
  pub description : Str
  pub status : SpiderStatus
  pub entry_module : Str
  pub source_key : Str
  pub source_version : ℤ
  pub config : Fields
  pub created_at : Time
  pub updated_at : Time
  pub git_url : Str
  pub git_branch : Str
  pub last_synced_at : Option Time
  pub last_sync_commit : Str
  pub last_sync_error : Str

-- A nil configuration is `none`.
pub record CreateInput : Type 0 where
  pub project_id : ℕ
  pub name : Str
  pub description : Str
  pub entry_module : Str
  pub config : Option Fields
  pub created_by : ℕ
  pub git_url : Str
  pub git_branch : Str

-- An empty status is `none`.
pub record UpdateInput : Type 0 where
  pub name : Str
  pub description : Str
  pub entry_module : Str
  pub config : Option Fields
  pub status : Option SpiderStatus
  pub git_url : Str
  pub git_branch : Str
