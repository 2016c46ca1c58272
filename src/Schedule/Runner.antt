-- ===== src/Schedule/Runner.antt =====
-- internal/schedule/runner.go: Reload, fire, and the two ends of Run.
use crawler_lite.Prelude.Base.{ℕ, Option, none, some, List, [], ◌∷◌, map, keep, if◌then◌else◌}
use crawler_lite.Result.{Result, ok, err}
use crawler_lite.Store.{Store}
use crawler_lite.Spider.Model.{Time}
use crawler_lite.Prelude.Int.{pos}
use crawler_lite.Task.Model.{Task, Trigger}
use crawler_lite.Task.Model
use crawler_lite.Schedule.Model.{Schedule, Tables, Cron}
use crawler_lite.Schedule.Repo.{list_enabled, update_next_run}
use crawler_lite.Schedule.Service.{get, mark_run}
use crawler_lite.Schedule.Daemon.{Entry, Daemons, swap, hand_over, start_current, start, stop}

-- task.Service as the runner sees it, over a state `Q`.
pub record TaskQueuer (Q : Type 0) : Type 0 where
  pub queue : Model.CreateInput → Q → Result Task × Q

pub record World (Q : Type 0) : Type 0 where
  pub db : Store Tables
  pub now : Time
  pub daemons : Daemons
  pub tasks : Q

abbrev pub entry_of : Schedule → Entry
entry_of s = record { schedule_id = s.id; cron_expr = s.cron_expr }

-- The rows whose expression the new daemon takes.
abbrev pub registered : Cron → List Schedule → List Schedule
registered c rows = keep (λ s. c.accepts s.cron_expr) rows

-- The next run of a row; where the parser refuses the expression there is none.
abbrev pub next_of : Time → Option (Time → Time) → Option Time
next_of now none = none
next_of now (some next) = some (next now)

-- The loop that stores the next runs; a failed statement is logged.
abbrev pub refresh_row : Cron → Time → Schedule → Store Tables → Store Tables
refresh_row c now s db = elim (c.parse s.cron_expr) [
  | none ↦ db
  | some next ↦ (update_next_run s.id (some (next now)) db).1
]

unfoldable pub refresh : Cron → Time → List Schedule → Store Tables → Store Tables
refresh c now [] db = db
refresh c now (s ∷ ss) db = refresh c now ss (refresh_row c now s db)

-- What a schedule queues.
unfoldable pub scheduled : Schedule → Model.CreateInput
scheduled s = record {
  spider_id = s.spider_id;
  trigger = some Trigger.schedule;
  spider_version = pos 0;
  triggered_args = some s.args;
  created_by = 0;
  parent_task_id = 0;
  attempt = pos 0;
  not_before = none;
}

module _ {Q : Type 0} where
  -- Reload behind the query.
  unfoldable pub reload_rows : Cron → List Schedule → World Q → World Q
  unfolding swap hand_over refresh
  reload_rows c rows w =
      let kept = registered c rows in
      let (pending, ds) = swap (map entry_of kept) w.daemons in
      record w { daemons = hand_over pending ds; db = refresh c w.now kept w.db }

  abbrev pub listed :
      Cron → World Q → Result (List Schedule) × Store Tables → Result (Unit {0}) × World Q
  listed c w (err e, db) = (err e, record w { db = db })
  listed c w (ok rows, db) = (ok tt, reload_rows c rows (record w { db = db }))

  unfoldable pub reload : Cron → World Q → Result (Unit {0}) × World Q
  unfolding list_enabled reload_rows
  reload c w = listed c w (list_enabled w.db)

  -- The end of fire, behind Queue; a failed statement is logged.
  unfoldable pub fired : Cron → ℕ → Schedule → Result Task × Q → World Q → World Q
  unfolding mark_run
  fired c id s (err e, q) w = record w { tasks = q }
  fired c id s (ok t, q) w = record w {
    tasks = q;
    db = (mark_run w.now id w.now t.id (next_of w.now (c.parse s.cron_expr)) w.db).1;
  }

  abbrev pub looked_up :
      Cron → TaskQueuer Q → ℕ → World Q → Result Schedule × Store Tables → World Q
  looked_up c queuer id w (err e, db) = record w { db = db }
  looked_up c queuer id w (ok s, db) =
      if s.enabled
      then fired c id s (queuer.queue (scheduled s) w.tasks) (record w { db = db })
      else record w { db = db }

  unfoldable pub fire : Cron → TaskQueuer Q → ℕ → World Q → World Q
  unfolding get fired
  fire c queuer id w = looked_up c queuer id w (get id w.db)

  -- Run up to its wait, behind the reload. It answers the daemon that it holds.
  abbrev pub started : Result (Unit {0}) × World Q → Result (Option ℕ) × World Q
  started (err e, w) = (err e, w)
  started (ok _, w) =
      (ok w.daemons.current, record w { daemons = start_current w.daemons.current w.daemons })

  unfoldable pub run_start : Cron → World Q → Result (Option ℕ) × World Q
  unfolding reload start
  run_start c w = started (reload c w)

  -- Run behind its wait.
  unfoldable pub run_stop : ℕ → World Q → World Q
  unfolding stop
  run_stop held w = record w { daemons = stop held w.daemons }
