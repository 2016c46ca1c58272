-- ===== src/Task/Service.antt =====
-- internal/task/service.go: Queue, and OnUpdate with the retry hook. Each function takes the world and
-- returns what Go returns with the new world.
use crawler_lite.Prelude.Base.{ℕ, ◌==◌, Bool, true, false, Option, none, some, ◌∷◌, if◌then◌else◌}
use crawler_lite.Prelude.Int.{ℤ, pos, ◌+ℤ◌, is_zero, wrap32}
use crawler_lite.Prelude.Text.{Str, codes}
use crawler_lite.Result.{no_source, invalid_input, wrapped, Result, ok, err}
use crawler_lite.Retry.{RetryPolicy, policy_from_spider_config, decide}
use crawler_lite.Spider.Model.{Time, Spider}
use crawler_lite.Task.Model.{
  Status, retry, Task, CreateInput, Event, World, Deps, is_terminal_status, may_retry,
}
use crawler_lite.Task.Repo.{at_least_one, or_manual, get, get_spider, create, set_status}

-- `attempt` as the retry hook reads it from the parent: at least 1.
abbrev pub attempt_of : Task → ℤ
attempt_of t = at_least_one t.attempt

-- The child of a failed task.
unfoldable pub child_input : Time → Task → ℤ → ℤ → CreateInput
child_input now parent attempt delay = record {
  spider_id = parent.spider_id;
  trigger = some retry;
  spider_version = parent.spider_version;
  triggered_args = parent.triggered_args;
  created_by = 0;
  parent_task_id = parent.id;
  attempt = wrap32 (attempt +ℤ pos 1);
  not_before = some (now +ℤ delay);
}

-- What maybeScheduleRetry returns.
pub record RetryOutcome : Type 0 where
  pub parent : Option Task
  pub spider : Option Spider
  pub max_attempts : ℤ
  pub will_retry : Bool

abbrev pub no_parent : RetryOutcome
no_parent = record { parent = none; spider = none; max_attempts = pos 0; will_retry = false }

abbrev pub no_spider : Task → RetryOutcome
no_spider t = record { parent = some t; spider = none; max_attempts = pos 0; will_retry = false }

abbrev pub loaded : Task → Spider → RetryPolicy → Bool → RetryOutcome
loaded t sp p retried = record {
  parent = some t;
  spider = some sp;
  max_attempts = wrap32 p.max_attempts;
  will_retry = retried;
}

abbrev pub event : Status → Str → Str → Time → Task → Spider → RetryOutcome → Event
event status message class now t sp o = record {
  kind = status;
  task_id = t.id;
  spider_id = t.spider_id;
  spider_name = sp.name;
  error_class = class;
  error_message = message;
  attempt = t.attempt;
  max_attempts = o.max_attempts;
  will_retry = o.will_retry;
  finished_at = now;
}

module _ {H : Type 0} where
  -- notify: a second wakeup is dropped.
  abbrev pub wake : World H → World H
  wake w = record w { wakeup = true }

  -- The insertion of the child, where the policy says yes.
  unfoldable pub schedule_child :
      World H → Task → Spider → RetryPolicy → Str → Bool × ℤ → RetryOutcome × World H
  schedule_child w parent sp p class (false, delay) = (loaded parent sp p false, w)
  schedule_child w parent sp p class (true, delay) =
      let (r, db) = create w.now (child_input w.now parent (attempt_of parent) delay) w.db in
      elim r [
        | err e ↦ (loaded parent sp p false, record w { db = db })
        | ok child ↦ (loaded parent sp p true, record w { db = db; wakeup = true })
      ]

  unfoldable pub retry_with_spider :
      Deps → World H → Task → Str → Result Spider → RetryOutcome × World H
  unfolding schedule_child
  retry_with_spider d w parent class (err e) = (no_spider parent, w)
  retry_with_spider d w parent class (ok sp) =
      let p = policy_from_spider_config d.unicode sp.config in
      schedule_child w parent sp p class (decide d.unicode p (attempt_of parent) class)

  unfoldable pub retry_with_parent : Deps → World H → Str → Result Task → RetryOutcome × World H
  unfolding retry_with_spider
  retry_with_parent d w class (err e) = (no_parent, w)
  retry_with_parent d w class (ok parent) =
      let (r, db) = get_spider parent.spider_id w.db in
      retry_with_spider d (record w { db = db }) parent class r

  unfoldable pub maybe_schedule_retry : Deps → ℕ → Str → World H → RetryOutcome × World H
  unfolding retry_with_parent
  maybe_schedule_retry d parent_id class w =
      let (r, db) = get parent_id w.db in retry_with_parent d (record w { db = db }) class r

  -- The lookups of OnUpdate for the terminal states that are never retried.
  unfoldable pub load_spider : Deps → World H → Task → Result Spider → RetryOutcome × World H
  load_spider d w t (err e) = (no_spider t, w)
  load_spider d w t (ok sp) = (loaded t sp (policy_from_spider_config d.unicode sp.config) false, w)

  unfoldable pub load_task : Deps → World H → Result Task → RetryOutcome × World H
  unfolding load_spider
  load_task d w (err e) = (no_parent, w)
  load_task d w (ok t) =
      let (r, db) = get_spider t.spider_id w.db in load_spider d (record w { db = db }) t r

  unfoldable pub load_parent : Deps → ℕ → World H → RetryOutcome × World H
  unfolding load_task
  load_parent d id w = let (r, db) = get id w.db in load_task d (record w { db = db }) r

  -- The hand-over to the notifier, where there is one and both rows were loaded.
  unfoldable pub send_event : Deps → Status → Str → Str → RetryOutcome × World H → World H
  send_event d status message class (o, w) = elim o.parent [
    | none ↦ w
    | some t ↦ elim o.spider [
      | none ↦ w
      | some sp ↦
          if d.has_notifier
          then record w { sent = event status message class w.now t sp o ∷ w.sent }
          else w
    ]
  ]

  -- OnUpdate behind the write of the status.
  unfoldable pub after_status :
      Deps → ℕ → Status → Str → Str → World H → Result (Unit {0}) → Result (Unit {0}) × World H
  unfolding maybe_schedule_retry load_parent send_event
  after_status d id status message class w (err e) = (err e, w)
  after_status d id status message class w (ok _) =
      if is_terminal_status status
      then (
        ok tt,
        send_event d status message class
            (if may_retry status then maybe_schedule_retry d id class w else load_parent d id w),
      )
      else (ok tt, w)

  unfoldable pub on_update :
      Deps → ℕ → Status → Str → Str → Str → World H → Result (Unit {0}) × World H
  unfolding after_status
  on_update d id status message class worker w =
      let (r, db) = set_status w.now id status message class worker w.db in
      after_status d id status message class (record w { db = db }) r

  -- Queue behind the choice of the version.
  unfoldable pub insert_task : CreateInput → World H → Result Task × World H
  insert_task i w =
      let (r, db) = create w.now i w.db in
      elim r [
        | err e ↦ (err e, record w { db = db })
        | ok t ↦ (ok t, record w { db = db; wakeup = true })
      ]

  unfoldable pub queue_version : CreateInput → World H → Result Spider → Result Task × World H
  unfolding insert_task
  queue_version i w (err e) = (err (wrapped (codes "lookup spider") e), w)
  queue_version i w (ok sp) =
      if is_zero sp.source_version
      then (err no_source, w)
      else insert_task (record i { spider_version = sp.source_version }) w

  unfoldable pub queue : CreateInput → World H → Result Task × World H
  unfolding queue_version
  queue i w =
      let i' = record i { trigger = some (or_manual i.trigger) } in
      let (r, db) = get_spider i.spider_id w.db in
      if i.spider_id == 0
      then (err invalid_input, w)
      else if is_zero i.spider_version
      then queue_version i' (record w { db = db }) r
      else insert_task i' w
