-- ===== src/Task/Retrying.antt =====
-- The retry hook: when a child is inserted, and which.
use crawler_lite.Prelude.Base.{
  ℕ, suc, ◌≡◌, refl, sym, ap, ◌∙◌, ◌⊎◌, inl, inr, Bool, true, false, some, [], ◌∷◌, ◌++◌,
}
use crawler_lite.Prelude.Int.{ℤ}
use crawler_lite.Prelude.Text.{Str}
use crawler_lite.Result.{Error, Result, ok, err}
use crawler_lite.Retry.{RetryPolicy, policy_from_spider_config, decide, backoff_for}
use crawler_lite.Retry.Decision.{Retries, decide-true, Retries-decide}
use crawler_lite.Spider.Model.{Time, Spider}
use crawler_lite.Task.Model.{Task, Db, World, Deps}
use crawler_lite.Task.Repo.{find_task, find_spider, get, get_spider, new_row}
use crawler_lite.Task.Statements.{
  SameTables, SameTables-trans, get-SameTables, get_ok, get_spider-SameTables, get_spider_ok,
  create_cases,
}
use crawler_lite.Task.Service.{
  attempt_of, child_input, RetryOutcome, schedule_child, retry_with_spider, retry_with_parent,
  maybe_schedule_retry,
}

pub Result-cases {ℓ} :
    {A : Type ℓ} (r : Result A) → ((e : Error) × (r ≡ err e)) ⊎ ((a : A) × (r ≡ ok a))
Result-cases (ok a) = inr (a, refl)
Result-cases (err e) = inl (e, refl)

-- The row of the child that follows a failed attempt.
abbrev pub child_row : Deps → ℕ → Time → Task → Spider → Task
child_row d id now parent sp =
    let p = policy_from_spider_config d.unicode sp.config in
    new_row id now (child_input now parent (attempt_of parent) (backoff_for p (attempt_of parent)))

module _ {H : Type 0} where
  -- A child was inserted: its parent and spider are in the tables, the spider's policy retries the
  -- failure, and one row more is in the table.
  pub record Scheduled (d : Deps) (id : ℕ) (class : Str) (w w' : World H) : Type 0 where
    pub parent : Task
    pub spider : Spider
    pub parent_found : find_task id w.db.tasks ≡ some parent
    pub spider_found : find_spider parent.spider_id w.db.spiders ≡ some spider
    pub retries :
        Retries d.unicode
          (policy_from_spider_config d.unicode spider.config)
          (attempt_of parent)
          class
    pub appended : w'.db.tasks ≡ w.db.tasks ++ (child_row d w.db.next_id w.now parent spider ∷ [])
    pub next_id : w'.db.next_id ≡ suc w.db.next_id
    pub spiders : w'.db.spiders ≡ w.db.spiders
    pub woken : w'.wakeup ≡ true

  abbrev pub Retried : Deps → ℕ → Str → World H → RetryOutcome × World H → Type 0
  Retried d id class w (o, w') =
      ((o.will_retry ≡ false) × SameTables w.db w'.db)
      ⊎ ((o.will_retry ≡ true) × Scheduled d id class w w')

  schedule_child_lem :
      (d : Deps) (id : ℕ) (class : Str) (w : World H) (db : Db) (parent : Task) (sp : Spider)
      (b : Bool × ℤ)
      → find_task id w.db.tasks ≡ some parent
      → find_spider parent.spider_id w.db.spiders ≡ some sp
      → SameTables w.db db
      → b
        ≡ decide d.unicode (policy_from_spider_config d.unicode sp.config) (attempt_of parent) class
      → Retried d id class w (
          schedule_child
            (record w { db = db })
            parent
            sp
            (policy_from_spider_config d.unicode sp.config)
            class
            b)
  unfolding schedule_child
  schedule_child_lem d id class w db parent sp (false, delay) pf sf same e = inl (refl, same)
  schedule_child_lem d id class w db parent sp (true, delay) pf sf same e =
      elim (create_cases w.now (child_input w.now parent (attempt_of parent) delay) db) [
        | inl (x, q, s) ↦
            inl (rw (q, schedule_child), rw (q, schedule_child) (SameTables-trans same s))
        | inr (q, ts, n, ss) ↦ inr (
          rw (q, schedule_child),
          record {
            parent = parent;
            spider = sp;
            parent_found = pf;
            spider_found = sf;
            retries = retried;
            appended = rw (q, schedule_child) (rw (ts, same.tasks, same.next_id, delayed));
            next_id = rw (q, schedule_child) (n ∙ ap suc same.next_id);
            spiders = rw (q, schedule_child) (ss ∙ same.spiders);
            woken = rw (q, schedule_child);
          },
        )
      ]
    where
      policy : RetryPolicy
      policy = policy_from_spider_config d.unicode sp.config

      retried : Retries d.unicode policy (attempt_of parent) class
      retried = decide-true d.unicode policy (attempt_of parent) class (sym (ap (λ x. x.0) e))

      delayed : delay ≡ backoff_for policy (attempt_of parent)
      delayed =
          ap (λ x. x.1) (e ∙ Retries-decide d.unicode policy (attempt_of parent) class retried)

  retry_with_spider_lem :
      (d : Deps) (id : ℕ) (class : Str) (w : World H) (db : Db) (t : Task) (r : Result Spider)
      → find_task id w.db.tasks ≡ some t
      → ((sp : Spider) → r ≡ ok sp → find_spider t.spider_id w.db.spiders ≡ some sp)
      → SameTables w.db db
      → Retried d id class w (retry_with_spider d (record w { db = db }) t class r)
  unfolding retry_with_spider
  retry_with_spider_lem d id class w db t (err e) pf sf same = inl (refl, same)
  retry_with_spider_lem d id class w db t (ok sp) pf sf same =
      schedule_child_lem d id class w db t sp
        (decide d.unicode (policy_from_spider_config d.unicode sp.config) (attempt_of t) class) pf
        (sf sp refl) same refl

  retry_with_parent_lem :
      (d : Deps) (id : ℕ) (class : Str) (w : World H) (db : Db) (r : Result Task)
      → ((t : Task) → r ≡ ok t → find_task id w.db.tasks ≡ some t)
      → SameTables w.db db
      → Retried d id class w (retry_with_parent d (record w { db = db }) class r)
  unfolding retry_with_parent
  retry_with_parent_lem d id class w db (err e) pf same = inl (refl, same)
  retry_with_parent_lem d id class w db (ok t) pf same =
      retry_with_spider_lem d id class w (get_spider t.spider_id db).1 t
        (get_spider t.spider_id db).0 (pf t refl)
        (λ sp q. rw (← same.spiders) (get_spider_ok t.spider_id db sp q))
        (SameTables-trans same (get_spider-SameTables t.spider_id db))

  -- The retry hook either inserts nothing and leaves the tables, and says so; or it says that it
  -- scheduled a retry, and then the failed task and its spider are in the tables, the spider's
  -- policy retries the failure, exactly the child's row was appended, and the dispatcher is woken.
  pub maybe_schedule_retry_lem :
      (d : Deps) (id : ℕ) (class : Str) (w : World H)
      → Retried d id class w (maybe_schedule_retry d id class w)
  unfolding maybe_schedule_retry
  maybe_schedule_retry_lem d id class w =
      retry_with_parent_lem d id class w (get id w.db).1 (get id w.db).0 (λ t q. get_ok id w.db t q)
        (get-SameTables id w.db)
