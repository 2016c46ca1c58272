-- ===== src/Schedule/Service.antt =====
-- internal/schedule/service.go: validation and persistence of schedules.
use crawler_lite.Prelude.Base.{ℕ, ◌==◌, Bool, ◌||◌, Option, none, some, List, if◌then◌else◌}
use crawler_lite.Prelude.Text.{Str, Unicode, trim_space, is_empty}
use crawler_lite.Result.{invalid_input, invalid_cron, Result, ok, err}
use crawler_lite.Store.{Store}
use crawler_lite.Spider.Model.{Time}
use crawler_lite.Schedule.Model.{Schedule, CreateInput, UpdateInput, Tables, Cron}
use crawler_lite.Schedule.Repo

unfoldable pub is_blank : Unicode → Str → Bool
unfolding trim_space
is_blank u s = is_empty (trim_space u s)

abbrev pub parsed : {A : Type 0} → Option A → Result (Unit {0})
parsed none = err invalid_cron
parsed (some s) = ok tt

unfoldable pub validate_cron : Unicode → Cron → Str → Result (Unit {0})
unfolding is_blank
validate_cron u c expr = if is_blank u expr then err invalid_cron else parsed (c.parse expr)

-- A write behind the check of the expression.
abbrev pub checked :
    Result (Unit {0})
    → (Store Tables → Result Schedule × Store Tables)
    → Store Tables
    → Result Schedule × Store Tables
checked (err e) write db = (err e, db)
checked (ok _) write db = write db

unfoldable pub create :
    Unicode → Cron → Time → CreateInput → Store Tables → Result Schedule × Store Tables
unfolding is_blank validate_cron Repo.insert
create u c now i db =
    if i.spider_id == 0 || is_blank u i.name
    then (err invalid_input, db)
    else checked (validate_cron u c i.cron_expr) (Repo.insert now i) db

unfoldable pub get : ℕ → Store Tables → Result Schedule × Store Tables
unfolding Repo.get
get id db = Repo.get id db

unfoldable pub list : Store Tables → Result (List Schedule) × Store Tables
unfolding Repo.list
list db = Repo.list db

unfoldable pub change :
    Unicode → Cron → Time → ℕ → UpdateInput → Store Tables → Result Schedule × Store Tables
unfolding is_blank validate_cron Repo.update
change u c now id i db =
    if is_blank u i.name
    then (err invalid_input, db)
    else checked (validate_cron u c i.cron_expr) (Repo.update now id i) db

unfoldable pub remove : ℕ → Store Tables → Result (Unit {0}) × Store Tables
unfolding Repo.delete
remove id db = Repo.delete id db

unfoldable pub mark_run :
    Time → ℕ → Time → ℕ → Option Time → Store Tables → Result (Unit {0}) × Store Tables
unfolding Repo.mark_run
mark_run now id at task next db = Repo.mark_run now id at task next db
