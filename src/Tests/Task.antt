-- ===== src/Tests/Task.antt =====
-- internal/task/service.go and retry.go on a table with one running task.
use crawler_lite.Task.Offers.{Round, IsReady, dispatch_once_lem}
use crawler_lite.Task.Ordering.{IsDue}
use crawler_lite.Prelude.Int.{wrap32, pos, ◌+ℤ◌}
use crawler_lite.Retry.Decision.{Retries-decide, Retries}
use crawler_lite.Task.Service.{
  child_input, schedule_child, retry_with_spider, retry_with_parent, attempt_of, on_update, queue,
  maybe_schedule_retry,
}
use crawler_lite.Task.Repo.{new_row, create, get, get_spider}
use crawler_lite.Task.Chain.{starts, Chain-ends, retried, Chain}
use crawler_lite.Prelude.Base.{
  ◌<◌, List, All, ◌≡◌, refl, ap, ◌⊎◌, true, false, none, some, [], ◌∷◌, arith,
}
use mathlib.Core.List.{mem-cons}
use mathlib.Core.Logic.Or
use mathlib.Core.Bool.{false≢true}
use crawler_lite.Prelude.Text.{codes, ascii_only, normal, str_eq, is_empty}
use crawler_lite.Prelude.Json.{end, encodes_fields}
use crawler_lite.Result.{ok}
use crawler_lite.Retry.{policy_from_spider_config}
use crawler_lite.Spider.Model.{Spider, SpiderStatus}
use crawler_lite.Task.Model.{
  is_terminal_status, Status, Trigger, Task, CreateInput, AssignTask, Db, World, Deps, HubOps,
}
use crawler_lite.Task.Dispatch.{cancel, dispatch_once}
use crawler_lite.Task.Retrying.{Retried, child_row, maybe_schedule_retry_lem}
use crawler_lite.Task.Updating.{stored}
use crawler_lite.Task.Told.{Told, on_update-Told}
use crawler_lite.Task.Assign.{assign_message, build_assign_from}
use crawler_lite.Task.Bounds.{Bounded, operations-Bounded}
use crawler_lite.Tests.Retry.{config, parsed, parsed_test}

abbrev pub spider : Spider
spider = record {
  id = 4;
  project_id = 0;
  name = codes "news";
  description = [];
  status = SpiderStatus.active;
  entry_module = codes "main";
  source_key = codes "k";
  source_version = pos 2;
  config = config;
  created_at = pos 0;
  updated_at = pos 0;
  git_url = [];
  git_branch = [];
  last_synced_at = none;
  last_sync_commit = [];
  last_sync_error = [];
}

abbrev pub running_task : Task
running_task = record {
  id = 9;
  spider_id = 4;
  parent_task_id = 0;
  trigger = Trigger.manual;
  status = Status.running;
  spider_version = pos 2;
  worker_id = codes "w1";
  queued_at = pos 5;
  started_at = some (pos 6);
  finished_at = none;
  error = [];
  error_class = [];
  stats = end;
  triggered_args = none;
  attempt = pos 1;
  not_before = none;
}

abbrev pub tables : Db
tables = record { tasks = running_task ∷ []; next_id = 10; spiders = spider ∷ []; faults = [] }

abbrev pub deps : Deps
deps = record { unicode = ascii_only; default_timeout_seconds = pos 600; has_notifier = true }

-- A world in which the hub has no worker.
abbrev world : World (Unit {0})
world = record { db = tables; now = pos 100; wakeup = false; hub = tt; sent = [] }

abbrev no_workers : HubOps (Unit {0})
no_workers = record { assign = λ a h. (ok false, h); cancel_running = λ t h. (ok tt, h) }

abbrev input : CreateInput
input = record {
  spider_id = 4;
  trigger = none;
  spider_version = pos 0;
  triggered_args = none;
  created_by = 0;
  parent_task_id = 0;
  attempt = pos 0;
  not_before = none;
}

retry_example :
    Retried deps 9 (codes "timeout") world (maybe_schedule_retry deps 9 (codes "timeout") world)
retry_example = maybe_schedule_retry_lem deps 9 (codes "timeout") world

parsed-Retries : Retries ascii_only parsed (pos 1) (codes "timeout")
unfolding normal str_eq
parsed-Retries = record {
  more_than_one = ground arith;
  below_max = ground arith;
  known = λ e. false≢true (ap is_empty e);
  not_captcha = λ e. false≢true (ap (λ s. str_eq s (codes "captcha")) e);
  listed = mem-cons.1 (Or.inl refl);
}

retry_Retries :
    Retries ascii_only
      (policy_from_spider_config ascii_only config)
      (attempt_of running_task)
      (codes "timeout")
retry_Retries = rw parsed_test parsed-Retries

-- The row of the retry of the running task.
abbrev child : Task
child = child_row deps 10 (pos 100) running_task spider

retry_child :
    (maybe_schedule_retry deps 9 (codes "timeout") world).1.db.tasks ≡ running_task ∷ child ∷ []
unfolding maybe_schedule_retry retry_with_parent retry_with_spider schedule_child get get_spider
    create new_row child_input wrap32 ◌+ℤ◌
retry_child =
    rw
      (Retries-decide ascii_only (policy_from_spider_config ascii_only config)
        (attempt_of running_task) (codes "timeout") retry_Retries)
      refl

retry_will : (maybe_schedule_retry deps 9 (codes "timeout") world).0.will_retry ≡ true
unfolding maybe_schedule_retry retry_with_parent retry_with_spider schedule_child get get_spider
    create new_row child_input wrap32 ◌+ℤ◌
retry_will =
    rw
      (Retries-decide ascii_only (policy_from_spider_config ascii_only config)
        (attempt_of running_task) (codes "timeout") retry_Retries)
      refl

two : Chain (Unit {0}) deps running_task 1 child
two = retried world 9 (codes "timeout") running_task child starts refl refl retry_will retry_child

Chain-ends_example : (attempt_of child ≡ attempt_of running_task +ℤ pos 1) × (1 < 100)
Chain-ends_example = Chain-ends deps running_task child 1 two

tables-Bounded : Bounded tables
tables-Bounded = (record { numbered = omega arith; first = ground arith; last = ground arith }, tt)

operations-Bounded_example :
    Bounded (on_update deps 9 Status.failed [] (codes "exit") (codes "w1") world).1.db
    × Bounded (dispatch_once no_workers deps world).db
    × Bounded (cancel no_workers 9 world).1.db
    × Bounded (queue input world).1.db
operations-Bounded_example =
    operations-Bounded no_workers deps world 9 Status.failed [] (codes "exit") (codes "w1") input
      tables-Bounded (ground arith)

on_update-Told_example :
    let w' =
      (on_update deps 9 Status.timeout (codes "late") (codes "timeout") (codes "w1") world).1 in
    (w'.sent ≡ [])
    ⊎ ((is_terminal_status Status.timeout ≡ true)
        × Told deps Status.timeout
            (stored 9 Status.timeout (codes "late") (codes "timeout") (codes "w1") world)
            w')
on_update-Told_example =
    on_update-Told deps 9 Status.timeout (codes "late") (codes "timeout") (codes "w1") world

abbrev waiting_world : World (List AssignTask)
waiting_world = record {
  db = record tables { tasks = record running_task { status = Status.queued } ∷ [] };
  now = pos 100;
  wakeup = false;
  hub = [];
  sent = [];
}

-- A hub that takes every message and keeps it.
abbrev keeper : HubOps (List AssignTask)
keeper = record { assign = λ a h. (ok true, a ∷ h); cancel_running = λ t h. (ok tt, h) }

waiting-IsReady :
    All
      (λ t. IsDue waiting_world.now t → IsReady deps waiting_world.db.spiders t)
      waiting_world.db.tasks
unfolding build_assign_from encodes_fields
waiting-IsReady = (λ _. (assign_message deps running_task spider, refl), tt)

dispatch_once_example : Round keeper deps waiting_world
dispatch_once_example = dispatch_once_lem keeper deps waiting_world waiting-IsReady
