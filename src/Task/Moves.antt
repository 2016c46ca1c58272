-- ===== src/Task/Moves.antt =====
-- The service's operations as moves of the tables: each is a sequence of status writes and insertions.
use crawler_lite.Prelude.Base.{ℕ, suc, ◌≡◌, inl, inr, some, [], ◌∷◌, ◌++◌, arith, ◌==◌, Bool-cases}
use crawler_lite.Prelude.Int.{ℤ, pos, ◌≤ℤ◌, ◌<ℤ◌, ◌+ℤ◌, wrap32, is_zero}
use crawler_lite.Prelude.Text.{Str}
use crawler_lite.Result.{Result, ok, err}
use crawler_lite.Retry.{policy_from_spider_config, backoff_for}
use crawler_lite.Retry.Parsing.{policy_from_spider_config-IsValid}
use crawler_lite.Retry.Decision.{Retries}
use crawler_lite.Spider.Model.{Time, Spider}
use crawler_lite.Task.Model.{
  Status, Task, CreateInput, Db, World, Deps, is_terminal_status, may_retry,
}
use crawler_lite.Task.Repo.{
  at_least_one, or_manual, get_spider, new_row, with_status, update_row, set_status,
}
use crawler_lite.Task.Statements.{SameTables, get_spider-SameTables, create_cases, set_status_cases}
use crawler_lite.Task.Retrying.{child_row, maybe_schedule_retry_lem}
use crawler_lite.Task.Service.{
  attempt_of, child_input, maybe_schedule_retry, load_parent, after_status, on_update, insert_task,
  queue_version, queue,
}
use crawler_lite.Task.Updating.{stored, load_parent-Looked, send_event-db}

-- One move. An inserted task is one that a caller or a policy may ask for: the attempt that its row
-- gets is at most 100.
pub data Move (a b : Db) : Type 0 where
  keep : SameTables a b → Move a b
  rewrite :
      (now : Time) (id : ℕ) (s : Status) (message class worker : Str)
      → b.tasks ≡ update_row id (with_status now s message class worker) a.tasks
      → b.next_id ≡ a.next_id
      → b.spiders ≡ a.spiders
      → Move a b
  insert :
      (now : Time) (i : CreateInput)
      → at_least_one i.attempt ≤ℤ pos 100
      → b.tasks ≡ a.tasks ++ (new_row a.next_id now i ∷ [])
      → b.next_id ≡ suc a.next_id
      → b.spiders ≡ a.spiders
      → Move a b

pub data Moves (a : Db) : Db → Type 0 where
  done : Moves a a
  next : {b c : Db} → Moves a b → Move b c → Moves a c

pub Moves-trans : {a b c : Db} → Moves a b → Moves b c → Moves a c
Moves-trans m done = m
Moves-trans m (next n s) = next (Moves-trans m n) s

pub one : {a b : Db} → Move a b → Moves a b
one m = next done m

at_least_one_pos : (a : ℤ) → pos 1 ≤ℤ at_least_one a
at_least_one_pos a = ground arith

next_attempt :
    (a m : ℤ)
    → pos 1 ≤ℤ a
    → a <ℤ m
    → m ≤ℤ pos 100
    → (at_least_one (wrap32 (a +ℤ pos 1)) ≡ a +ℤ pos 1) × (a +ℤ pos 1 ≤ℤ pos 100)
unfolding ◌+ℤ◌ wrap32
next_attempt a m h k l = ground arith

-- A child's attempt is the parent's plus one, and at most 100.
pub child_attempt :
    (d : Deps) (id : ℕ) (now : Time) (parent : Task) (sp : Spider) (class : Str)
    → Retries d.unicode (policy_from_spider_config d.unicode sp.config) (attempt_of parent) class
    → ((child_row d id now parent sp).attempt ≡ attempt_of parent +ℤ pos 1)
      × (attempt_of parent +ℤ pos 1 ≤ℤ pos 100)
unfolding new_row child_input
child_attempt d id now parent sp class r =
    next_attempt (attempt_of parent) (policy_from_spider_config d.unicode sp.config).max_attempts
      (at_least_one_pos parent.attempt) r.below_max
      (policy_from_spider_config-IsValid d.unicode sp.config).few_attempts

pub set_status-Moves :
    (now : Time) (id : ℕ) (s : Status) (message class worker : Str) (db : Db)
    → Moves db (set_status now id s message class worker db).1
set_status-Moves now id s message class worker db =
    elim (set_status_cases now id s message class worker db) [
      | inl (e, _, same) ↦ one (keep same)
      | inr (_, ts, n, ss) ↦ one (rewrite now id s message class worker ts n ss)
    ]

child_bound :
    (d : Deps) (now : Time) (parent : Task) (sp : Spider) (class : Str)
    → Retries d.unicode (policy_from_spider_config d.unicode sp.config) (attempt_of parent) class
    → at_least_one
        (child_input now parent
          (attempt_of parent)
          (backoff_for (policy_from_spider_config d.unicode sp.config) (attempt_of parent))).attempt
      ≤ℤ pos 100
unfolding child_input
child_bound d now parent sp class r =
    let p = policy_from_spider_config d.unicode sp.config in
    let b =
      next_attempt (attempt_of parent) p.max_attempts (at_least_one_pos parent.attempt) r.below_max
        (policy_from_spider_config-IsValid d.unicode sp.config).few_attempts in
    rw (b.0) (b.1)

module _ {H : Type 0} where
  pub maybe_schedule_retry-Moves :
      (d : Deps) (id : ℕ) (class : Str) (w : World H)
      → Moves w.db (maybe_schedule_retry d id class w).1.db
  maybe_schedule_retry-Moves d id class w = elim (maybe_schedule_retry_lem d id class w) [
    | inl (_, same) ↦ one (keep same)
    | inr (_, s) ↦ one (
        insert w.now _ (child_bound d w.now s.parent s.spider class s.retries) s.appended s.next_id
          s.spiders)
  ]

  after_status-Moves :
      (d : Deps) (id : ℕ) (s : Status) (message class : Str) (w : World H) (r : Result (Unit {0}))
      → Moves w.db (after_status d id s message class w r).1.db
  unfolding after_status
  after_status-Moves d id s message class w (err e) = done
  after_status-Moves d id s message class w (ok _) = elim (Bool-cases (is_terminal_status s)) [
    | inr live ↦ rw live done
    | inl terminal ↦ elim (Bool-cases (may_retry s)) [
      | inl may ↦
          let r = maybe_schedule_retry d id class w in
          rw (terminal, may, send_event-db d s message class r.0 r.1)
            (maybe_schedule_retry-Moves d id class w)
      | inr never ↦
          let r = load_parent d id w in
          rw (terminal, never, send_event-db d s message class r.0 r.1)
            (one (keep (load_parent-Looked d id w).1))
    ]
  ]

  -- Every operation of the task service is a sequence of moves.
  pub on_update-Moves :
      (d : Deps) (id : ℕ) (s : Status) (message class worker : Str) (w : World H)
      → Moves w.db (on_update d id s message class worker w).1.db
  unfolding on_update
  on_update-Moves d id s message class worker w =
      Moves-trans (set_status-Moves w.now id s message class worker w.db) (
        after_status-Moves d id s message class (stored id s message class worker w)
          (set_status w.now id s message class worker w.db).0)

  insert_task-Moves :
      (i : CreateInput) (w : World H)
      → at_least_one i.attempt ≤ℤ pos 100
      → Moves w.db (insert_task i w).1.db
  unfolding insert_task
  insert_task-Moves i w h = elim (create_cases w.now i w.db) [
    | inl (e, q, same) ↦ rw (q, insert_task) (one (keep same))
    | inr (q, ts, n, ss) ↦ rw (q, insert_task) (one (insert w.now i h ts n ss))
  ]

  queue_version-Moves :
      (i : CreateInput) (w : World H) (r : Result Spider)
      → at_least_one i.attempt ≤ℤ pos 100
      → Moves w.db (queue_version i w r).1.db
  unfolding queue_version
  queue_version-Moves i w (err e) h = done
  queue_version-Moves i w (ok sp) h = elim (Bool-cases (is_zero sp.source_version)) [
    | inl z ↦ rw z done
    | inr z ↦ rw z (insert_task-Moves (record i { spider_version = sp.source_version }) w h)
  ]

  pub queue-Moves :
      (i : CreateInput) (w : World H)
      → at_least_one i.attempt ≤ℤ pos 100
      → Moves w.db (queue i w).1.db
  unfolding queue
  queue-Moves i w h =
      let i' = record i { trigger = some (or_manual i.trigger) } in
      elim (Bool-cases (i.spider_id == 0)) [
        | inl z ↦ rw z done
        | inr z ↦ elim (Bool-cases (is_zero i.spider_version)) [
          | inl v ↦
              rw (z, v)
                (Moves-trans (one (keep (get_spider-SameTables i.spider_id w.db))) (
                  queue_version-Moves i' (record w { db = (get_spider i.spider_id w.db).1 })
                    (get_spider i.spider_id w.db).0 h))
          | inr v ↦ rw (z, v) (insert_task-Moves i' w h)
        ]
      ]
