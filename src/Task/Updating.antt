-- ===== src/Task/Updating.antt =====
-- OnUpdate: the stored status, the child of a failed attempt, and the notification.
use crawler_lite.Prelude.Base.{
  ℕ, ◌≡◌, refl, ap, ◌∙◌, ◌⊎◌, inl, inr, true, false, some, List, [], ◌∷◌, ◌++◌, arith, Bool-cases,
  Option-cases,
}
use crawler_lite.Prelude.Text.{Str}
use crawler_lite.Result.{Error, Result, ok, err}
use crawler_lite.Retry.{policy_from_spider_config}
use crawler_lite.Retry.Decision.{Retries}
use crawler_lite.Spider.Model.{Spider}
use crawler_lite.Task.Model.{Status, Task, Db, World, Deps, is_terminal_status, may_retry}
use crawler_lite.Task.Repo.{
  find_task, find_spider, get, get_spider, with_status, update_row, set_status,
}
use crawler_lite.Task.Statements.{
  SameTables, SameTables-trans, get-SameTables, get_spider-SameTables, set_status_cases,
}
use crawler_lite.Task.Retrying.{Retried, child_row, maybe_schedule_retry_lem}
use crawler_lite.Task.Service.{
  attempt_of, RetryOutcome, maybe_schedule_retry, load_spider, load_task, load_parent, event,
  send_event, after_status, on_update,
}

module _ {H : Type 0} where
  -- The lookups for the notification change no table and schedule nothing.
  abbrev pub Looked : World H → RetryOutcome × World H → Type 0
  Looked w (o, w') = (o.will_retry ≡ false) × SameTables w.db w'.db

  load_spider-Looked :
      (d : Deps) (w : World H) (db : Db) (t : Task) (r : Result Spider)
      → SameTables w.db db
      → Looked w (load_spider d (record w { db = db }) t r)
  unfolding load_spider
  load_spider-Looked d w db t (err e) same = (refl, same)
  load_spider-Looked d w db t (ok sp) same = (refl, same)

  load_task-Looked :
      (d : Deps) (w : World H) (db : Db) (r : Result Task)
      → SameTables w.db db
      → Looked w (load_task d (record w { db = db }) r)
  unfolding load_task
  load_task-Looked d w db (err e) same = (refl, same)
  load_task-Looked d w db (ok t) same =
      load_spider-Looked d w (get_spider t.spider_id db).1 t (get_spider t.spider_id db).0
        (SameTables-trans same (get_spider-SameTables t.spider_id db))

  pub load_parent-Looked : (d : Deps) (id : ℕ) (w : World H) → Looked w (load_parent d id w)
  unfolding load_parent
  load_parent-Looked d id w =
      load_task-Looked d w (get id w.db).1 (get id w.db).0 (get-SameTables id w.db)

  pub maybe_schedule_retry-sent :
      (d : Deps) (id : ℕ) (class : Str) (w : World H)
      → (maybe_schedule_retry d id class w).1.sent ≡ w.sent
  unfolding maybe_schedule_retry
  maybe_schedule_retry-sent d id class w = ground arith

  pub load_parent-sent : (d : Deps) (id : ℕ) (w : World H) → (load_parent d id w).1.sent ≡ w.sent
  unfolding load_parent
  load_parent-sent d id w = ground arith

  -- What the notifier is told, if it is told anything.
  abbrev pub Notified : Status → Str → Str → RetryOutcome → World H → World H → Type 0
  Notified status message class o w w' =
      (w'.sent ≡ w.sent)
      ⊎ ((t : Task) × (sp : Spider) × (o.parent ≡ some t)
          × (o.spider ≡ some sp)
          × (w'.sent ≡ event status message class w.now t sp o ∷ w.sent))

  pub send_event-db :
      (d : Deps) (status : Status) (message class : Str) (o : RetryOutcome) (w : World H)
      → (send_event d status message class (o, w)).db ≡ w.db
  unfolding send_event
  send_event-db d status message class o w = ground arith

  pub send_event-Notified :
      (d : Deps) (status : Status) (message class : Str) (o : RetryOutcome) (w : World H)
      → Notified status message class o w (send_event d status message class (o, w))
  unfolding send_event
  send_event-Notified d status message class o w = elim (Option-cases o.parent) [
    | inl e ↦ inl (rw (e, send_event))
    | inr (t, e) ↦ elim (Option-cases o.spider) [
      | inl q ↦ inl (rw (e, send_event, q))
      | inr (sp, q) ↦ elim (Bool-cases d.has_notifier) [
        | inl b ↦ inr (t, sp, e, q, rw (e, send_event, q, b))
        | inr b ↦ inl (rw (e, send_event, q, b))
      ]
    ]
  ]

  -- The world between the write of the status and the rest of OnUpdate.
  abbrev pub stored : ℕ → Status → Str → Str → Str → World H → World H
  stored id status message class worker w = record w {
    db = (set_status w.now id status message class worker w.db).1;
  }

  -- What OnUpdate does once the status is stored.
  pub record Updated (d : Deps) (id : ℕ) (status : Status) (message class worker : Str)
      (w w' : World H) : Type 0 where
    pub rows : List Task
    pub written : rows ≡ update_row id (with_status w.now status message class worker) w.db.tasks
    pub child :
        (w'.db.tasks ≡ rows)
        ⊎ ((parent : Task) × (sp : Spider) × (may_retry status ≡ true)
            × (find_task id rows ≡ some parent)
            × (find_spider parent.spider_id w.db.spiders ≡ some sp)
            × Retries d.unicode
                (policy_from_spider_config d.unicode sp.config)
                (attempt_of parent)
                class
            × (w'.db.tasks ≡ rows ++ (child_row d w.db.next_id w.now parent sp ∷ [])))

  of_Retried :
      (d : Deps) (id : ℕ) (status : Status) (message class worker : Str) (w w' : World H)
      (o : RetryOutcome)
      → may_retry status ≡ true
      → (stored id status message class worker w).db.tasks
        ≡ update_row id (with_status w.now status message class worker) w.db.tasks
      → (stored id status message class worker w).db.next_id ≡ w.db.next_id
      → (stored id status message class worker w).db.spiders ≡ w.db.spiders
      → Retried d id class (stored id status message class worker w) (o, w')
      → Updated d id status message class worker w w'
  of_Retried d id status message class worker w w' o may ts n ss (inl (no_child, same)) = record {
    rows = _;
    written = ts;
    child = inl same.tasks;
  }
  of_Retried d id status message class worker w w' o may ts n ss (inr (yes_child, s)) = record {
    rows = _;
    written = ts;
    child = inr (
      s.parent,
      s.spider,
      may,
      s.parent_found,
      rw (← ss) s.spider_found,
      s.retries,
      s.appended
          ∙ ap
              (λ k.
                (stored id status message class worker w).db.tasks
                ++ (child_row d k w.now s.parent s.spider ∷ []))
              n,
    );
  }

  with_db :
      (d : Deps) (id : ℕ) (status : Status) (message class worker : Str) (w u v : World H)
      → v.db ≡ u.db
      → Updated d id status message class worker w u
      → Updated d id status message class worker w v
  with_db d id status message class worker w u v e h = record {
    rows = h.rows;
    written = h.written;
    child = rw e h.child;
  }

  after_status_lem :
      (d : Deps) (id : ℕ) (status : Status) (message class worker : Str) (w : World H)
      (r : Result (Unit {0}))
      → r ≡ ok tt
      → (stored id status message class worker w).db.tasks
        ≡ update_row id (with_status w.now status message class worker) w.db.tasks
      → (stored id status message class worker w).db.next_id ≡ w.db.next_id
      → (stored id status message class worker w).db.spiders ≡ w.db.spiders
      → let q =
          after_status d id status message class (stored id status message class worker w) r in
        (q.0 ≡ ok tt) × Updated d id status message class worker w q.1
  unfolding after_status
  after_status_lem d id status message class worker w (err e) q ts n ss = cc
  after_status_lem d id status message class worker w (ok x) q ts n ss =
      let w1 = stored id status message class worker w in
      elim (Bool-cases (is_terminal_status status)) [
        | inr live ↦ (
          rw (live, after_status),
          rw (live, after_status) (record { rows = _; written = ts; child = inl refl }),
        )
        | inl done ↦ elim (Bool-cases (may_retry status)) [
          | inl may ↦
              let r = maybe_schedule_retry d id class w1 in
              (
                rw (done, after_status),
                rw (done, after_status, may)
                    (with_db d id status message class worker w r.1 _
                      (send_event-db d status message class r.0 r.1)
                      (of_Retried d id status message class worker w r.1 r.0 may ts n ss
                        (maybe_schedule_retry_lem d id class w1))),
              )
          | inr never ↦
              let r = load_parent d id w1 in
              (
                rw (done, after_status),
                rw (done, after_status, never)
                    (with_db d id status message class worker w r.1 _
                      (send_event-db d status message class r.0 r.1)
                      (record {
                        rows = _;
                        written = ts;
                        child = inl (load_parent-Looked d id w1).1.tasks;
                      })),
              )
        ]
      ]

  pub on_update_lem :
      (d : Deps) (id : ℕ) (status : Status) (message class worker : Str) (w : World H)
      → let r = on_update d id status message class worker w in
        ((e : Error) × (r.0 ≡ err e) × SameTables w.db r.1.db)
        ⊎ ((r.0 ≡ ok tt) × Updated d id status message class worker w r.1)
  unfolding on_update
  on_update_lem d id status message class worker w =
      elim (set_status_cases w.now id status message class worker w.db) [
        | inl (e, q, same) ↦ inl (e, rw (q, on_update), rw (q, on_update) same)
        | inr (q, ts, n, ss) ↦ inr (after_status_lem d id status message class worker w _ q ts n ss)
      ]
