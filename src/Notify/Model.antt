-- ===== src/Notify/Model.antt =====
-- internal/notify/notify.go: channels, inputs, and the service's state.
use crawler_lite.Prelude.Base.{ℕ, Bool, true, ◌&&◌, Option, List, [], ◌∷◌}
use crawler_lite.Prelude.Text.{Str, codes, contains, Unicode}
use crawler_lite.Spider.Model.{Time}
use crawler_lite.Task.Model.{
  Status, queued, running, succeeded, failed, cancelled, timeout, captcha_blocked,
}

-- `created_by` 0 is an absent creator.
pub record Channel : Type 0 where
  pub id : ℕ
  pub name : Str
  pub kind : Str
  pub url : Str
  pub events : List Str
  pub enabled : Bool
  pub created_by : ℕ
  pub created_at : Time
  pub updated_at : Time

-- `events` is `none` for a nil slice.
pub record CreateInput : Type 0 where
  pub name : Str
  pub kind : Str
  pub url : Str
  pub events : Option (List Str)
  pub enabled : Bool
  pub created_by : ℕ

pub record UpdateInput : Type 0 where
  pub name : Str
  pub kind : Str
  pub url : Str
  pub events : Option (List Str)
  pub enabled : Bool

-- The table in the order of ids, with the outcomes of the statements to come, as in the task tables.
pub record Db : Type 0 where
  pub channels : List Channel
  pub next_id : ℕ
  pub faults : List (Option Str)

-- One message to one channel.
pub record Delivery : Type 0 where
  pub channel : ℕ
  pub url : Str
  pub title : Str
  pub body : Str

-- `cache_until` is the end of the memo of enabled channels, where 0 is the zero time; `sent` lists the
-- deliveries, the latest first.
pub record World : Type 0 where
  pub db : Db
  pub now : Time
  pub cache_until : Time
  pub cached : List Channel
  pub sent : List Delivery

-- The sender: its parse check of a URL, and its answer to a delivery. `format_time` is
-- time.Format with RFC 3339.
pub record Env : Type 0 where
  pub unicode : Unicode
  pub valid_url : Str → Bool
  pub send_fails : Delivery → Option Str
  pub format_time : Time → Str

abbrev pub valid_events : List Str
valid_events = codes "failed" ∷ codes "timeout" ∷ codes "captcha_blocked" ∷ codes "succeeded" ∷ []

abbrev pub default_events : List Str
default_events = codes "failed" ∷ codes "timeout" ∷ codes "captcha_blocked" ∷ []

abbrev pub are_valid : List Str → Bool
are_valid [] = true
are_valid (e ∷ es) = contains valid_events e && are_valid es

-- string(status)
unfoldable pub token : Status → Str
token queued = codes "queued"
token running = codes "running"
token succeeded = codes "succeeded"
token failed = codes "failed"
token cancelled = codes "cancelled"
token timeout = codes "timeout"
token captcha_blocked = codes "captcha_blocked"
