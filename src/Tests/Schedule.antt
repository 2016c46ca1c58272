-- ===== src/Tests/Schedule.antt =====
-- internal/schedule on a table with one enabled schedule and a runner whose daemon runs.
use crawler_lite.Prelude.Base.{
  ◌==◌, ℕ, if◌then◌else◌, ◌≡◌, refl, true, false, none, some, List, [], ◌∷◌, All, arith,
}
use mathlib.Core.Option
use crawler_lite.Schedule.Reloading.{stopped_if, run_stop_lem, live}
use crawler_lite.Schedule.Service.{is_blank, validate_cron}
use crawler_lite.Prelude.Text.{ascii_only, is_empty, codes}
use crawler_lite.Result.{ok}
use crawler_lite.Prelude.Int.{◌+ℤ◌, pos}
use crawler_lite.Schedule.Handlers.{create_input, CreateReq}
use crawler_lite.Schedule.Running.{overlap_lem, run-AllAlone, overlap}
use crawler_lite.Schedule.Syncing.{run-InSync}
use crawler_lite.Schedule.Validity.{run-IsValid}
use crawler_lite.Prelude.Json.{end}
use crawler_lite.Schedule.Daemons.{find_daemon, fresh_daemon, AllAlone, current_daemon}
use crawler_lite.Schedule.Checks.{IsValid}
use crawler_lite.Schedule.Daemon.{Daemon, Daemons}
use crawler_lite.Schedule.Repo.{new_schedule}
use crawler_lite.Schedule.Steady.{InSync}
use crawler_lite.Task.Model.{Task}
use crawler_lite.Task.Model
use crawler_lite.Task.Service
use crawler_lite.Hub.Model.{WorkerHub}
use crawler_lite.Schedule.Model.{Schedule, Cron}
use crawler_lite.Schedule.Runner.{World, TaskQueuer, reload, run_stop}
use crawler_lite.Schedule.Requests.{Call, deletes, creates, fires, starts, stops, run}
use crawler_lite.Tests.Task.{tables}
use crawler_lite.Tests.Hub.{one_worker}

-- Every expression but the empty one is of the daily kind, and a descriptor is only for the daemon.
abbrev cron : Cron
cron = record {
  parse = λ e. if is_empty e then none else some (λ t. t +ℤ pos 86400);
  accepts = λ e. true;
}

abbrev nightly : Schedule
nightly = record {
  id = 3;
  spider_id = 4;
  name = codes "nightly";
  cron_expr = codes "0 3 * * *";
  args = end;
  enabled = true;
  last_run_at = none;
  last_task_id = 0;
  next_run_at = none;
  created_at = pos 0;
  updated_at = pos 0;
}

abbrev daemon : Daemon
daemon = record {
  serial = 0;
  entries = record { schedule_id = 3; cron_expr = codes "0 3 * * *" } ∷ [];
  is_running = true;
}

abbrev daemons : Daemons
daemons = record { made = daemon ∷ []; current = some 0; next_serial = 1 }

abbrev task_world : Model.World WorkerHub
task_world = record { db = tables; now = pos 100; wakeup = false; hub = one_worker; sent = [] }

abbrev world : World (Model.World WorkerHub)
world = record {
  db = record { tables = record { schedules = nightly ∷ []; next_id = 5 }; faults = [] };
  now = pos 100;
  daemons = daemons;
  tasks = task_world;
}

abbrev queuer : TaskQueuer (Model.World WorkerHub)
queuer = record { queue = Service.queue }

abbrev request : CreateReq
request = record {
  spider_id = 4;
  name = codes "hourly";
  cron_expr = codes "0 * * * *";
  args = none;
  enabled = none;
}

abbrev calls : List Call
calls = starts ∷ creates (some request) ∷ fires 5 ∷ deletes (some (pos 3)) ∷ stops 1 ∷ []

nightly-IsValid : IsValid ascii_only cron nightly
unfolding validate_cron is_blank
nightly-IsValid = record { spider = refl; named = refl; parses = refl }

run-IsValid_example :
    All (IsValid ascii_only cron) (run ascii_only cron queuer calls world).db.tables.schedules
run-IsValid_example = run-IsValid ascii_only cron queuer calls world (nightly-IsValid, tt)

run-AllAlone_example : AllAlone (run ascii_only cron queuer calls world).daemons
run-AllAlone_example =
    run-AllAlone ascii_only cron queuer calls world
      (record { known = ground arith; only = λ _. refl }, tt)

run-InSync_example : InSync cron (run ascii_only cron queuer calls world)
run-InSync_example =
    run-InSync ascii_only cron queuer calls world (record { calm = refl; same = refl })

overlap_example :
    let s' = overlap [] daemon.entries daemons in
    (find_daemon 1 s'.made ≡ some (fresh_daemon 1 [] true))
    × (current_daemon s' ≡ some (fresh_daemon 2 daemon.entries true))
overlap_example = overlap_lem [] daemon.entries 0 daemons refl (ground arith)

reloads : (reload cron world).0 ≡ ok tt
unfolding reload
reloads = refl

run_stop_example :
    ((m : ℕ)
      → find_daemon m (run_stop 0 world).daemons.made
        ≡ Option.map (stopped_if (m == 0)) (find_daemon m world.daemons.made))
    × ((run_stop 0 world).daemons.current ≡ world.daemons.current)
    × ((run_stop 0 world).db ≡ world.db)
    × ((run_stop 0 world).tasks ≡ world.tasks)
    × (current_daemon (run_stop 0 (reload cron world).1).daemons
        ≡ some (fresh_daemon 1 (live cron world.db.tables.schedules) true))
run_stop_example = run_stop_lem cron world 0 refl (ground arith) reloads

abbrev hourly : Schedule
hourly = new_schedule 5 (pos 100) (create_input request)
