-- ===== src/Schedule/Firing.antt =====
-- internal/schedule/runner.go, fire: what one fire of the cron does.
use crawler_lite.Prelude.Int.{pos}
use crawler_lite.Prelude.Base.{◌⊎◌, ◌≡◌, ℕ, true, false, none, some}
use crawler_lite.Result.{ok, err, Error, Result}
use crawler_lite.Schedule.Repo.{marked, update_rows, find_schedule}
use crawler_lite.Store.{Store}
use crawler_lite.Schedule.Model.{Schedule, Cron}
use crawler_lite.Schedule.Runner.{next_of, TaskQueuer, World}
use crawler_lite.Task.Model.{Task, CreateInput, Trigger}
use crawler_lite.Schedule.Repo

-- The request that the row's columns ask for: its spider and arguments, for a run by the schedule, of
-- the spider's latest version, on behalf of no user, as no retry and due at once.
abbrev pub request_of : Schedule → CreateInput
request_of row = record {
  spider_id = row.spider_id;
  trigger = some Trigger.schedule;
  spider_version = pos 0;
  triggered_args = some row.args;
  created_by = 0;
  parent_task_id = 0;
  attempt = pos 0;
  not_before = none;
}

-- A fire that queues: the row was found and is enabled, Queue was asked once with its arguments, and
-- where it gave a task the run is marked, or that statement fails; where it failed nothing is written.
pub record Queues {Q : Type 0} (c : Cron) (queuer : TaskQueuer Q) (id : ℕ) (w w' : World Q)
    : Type 0 where
  pub row : Schedule
  pub stored : find_schedule id w.db.tables.schedules ≡ some row
  pub on : row.enabled ≡ true
  pub asked : w'.tasks ≡ (queuer.queue (request_of row) w.tasks).1
  pub written :
      ((e : Error) × ((queuer.queue (request_of row) w.tasks).0 ≡ err e)
        × (w'.db.tables ≡ w.db.tables))
      ⊎ ((t : Task) × ((queuer.queue (request_of row) w.tasks).0 ≡ ok t)
          × ((w'.db.tables ≡ w.db.tables)
              ⊎ (w'.db.tables.schedules
                  ≡ update_rows id
                      (marked w.now w.now t.id (next_of w.now (c.parse row.cron_expr)))
                      w.db.tables.schedules)))

module _ {Q : Type 0} (c : Cron) (queuer : TaskQueuer Q) (id : ℕ) (w : World Q) where
  -- What a fire comes to, given what Get answers.
  abbrev Fire : Result Schedule → World Q → Type 0
  Fire r w' =
      (w'.daemons ≡ w.daemons)
      × (Queues c queuer id w w'
          ⊎ ((w'.tasks ≡ w.tasks)
              × (w'.db.tables ≡ w.db.tables)
              × (((e : Error) × (r ≡ err e))
                  ⊎ ((s : Schedule) × (r ≡ ok s) × (s.enabled ≡ false)))))
