-- ===== src/Sink/Tables.antt =====
-- internal/repository/items.go and internal/repository/artifacts.go: the tables of items and artifacts.
use crawler_lite.Prelude.Base.{ℕ, Option, List}
use crawler_lite.Prelude.Int.{ℤ}
use crawler_lite.Prelude.Text.{Str}
use crawler_lite.Sink.Model.{Counts}

pub record Item : Type 0 where
  pub id : ℕ
  pub task_id : ℕ
  pub spider_id : ℕ
  pub payload : Str
  pub payload_hash : Str
  pub created_at : ℤ

pub record ItemInsert : Type 0 where
  pub task_id : ℕ
  pub spider_id : ℕ
  pub payload_json : Str

-- `none` is NULL.
pub record Screenshot : Type 0 where
  pub id : ℕ
  pub task_id : ℕ
  pub taken_at : ℤ
  pub name : Str
  pub url : Option Str
  pub storage_key : Str
  pub width : Option ℤ
  pub height : Option ℤ
  pub bytes : ℤ

pub record ScreenshotInsert : Type 0 where
  pub task_id : ℕ
  pub name : Str
  pub url : Str
  pub storage_key : Str
  pub width : ℤ
  pub height : ℤ
  pub bytes : ℤ

pub record Har : Type 0 where
  pub task_id : ℕ
  pub storage_key : Str
  pub request_count : ℤ
  pub total_bytes : ℤ

pub record LogIndex : Type 0 where
  pub task_id : ℕ
  pub log_key : Str
  pub bytes : ℕ
  pub line_count : ℕ
  pub level_counts : Counts
  pub updated_at : ℤ

-- The rows in the order of their numbers, and the numbers to come.
pub record Tables : Type 0 where
  pub items : List Item
  pub next_item : ℕ
  pub screenshots : List Screenshot
  pub next_screenshot : ℕ
  pub hars : List Har
  pub log_index : List LogIndex
