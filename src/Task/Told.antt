-- ===== src/Task/Told.antt =====
-- What OnUpdate of internal/task/service.go tells the notifier.
use crawler_lite.Prelude.Base.{
  ℕ, ◌≡◌, refl, ap, ◌∙◌, ◌⊎◌, inl, inr, true, false, [], ◌∷◌, ◌++◌, Bool-cases,
}
use crawler_lite.Prelude.Text.{Str}
use crawler_lite.Result.{ok}
use crawler_lite.Spider.Model.{Spider}
use crawler_lite.Task.Model.{Status, Task, Event, World, Deps, is_terminal_status, may_retry}
use crawler_lite.Task.Repo.{set_status}
use crawler_lite.Task.Service.{
  RetryOutcome, maybe_schedule_retry, load_parent, send_event, after_status, on_update, event,
}
use crawler_lite.Task.Retrying.{Result-cases, Retried, child_row, maybe_schedule_retry_lem}
use crawler_lite.Task.Updating.{
  stored, send_event-db, send_event-Notified, load_parent-Looked, maybe_schedule_retry-sent,
  load_parent-sent,
}

and_terminal : {P Q : Type 0} → P ⊎ Q → P ⊎ ((true ≡ true) × Q)
and_terminal (inl p) = inl p
and_terminal (inr q) = inr (refl, q)

module _ {H : Type 0} where
  -- One event of the status went out after the row was written (the world `u`), and it says that a retry
  -- follows exactly if a child was appended.
  pub record Told (d : Deps) (status : Status) (u w' : World H) : Type 0 where
    pub told : Event
    pub sent : w'.sent ≡ told ∷ u.sent
    pub kind : told.kind ≡ status
    pub honest :
        ((told.will_retry ≡ false) × (w'.db.tasks ≡ u.db.tasks))
        ⊎ ((told.will_retry ≡ true)
            × ((t : Task) × (sp : Spider) × (w'.db.tasks
                  ≡ u.db.tasks ++ (child_row d u.db.next_id u.now t sp ∷ []))))

  send_event-Told :
      (d : Deps) (id : ℕ) (status : Status) (message class : Str) (u v : World H) (o : RetryOutcome)
      → Retried d id class u (o, v)
      → v.sent ≡ u.sent
      → ((send_event d status message class (o, v)).sent ≡ u.sent)
        ⊎ Told d status u (send_event d status message class (o, v))
  send_event-Told d id status message class u v o r e =
      elim (send_event-Notified d status message class o v) [
        | inl q ↦ inl (q ∙ e)
        | inr (t, sp, pt, ps, q) ↦ inr (record {
          told = event status message class v.now t sp o;
          sent = q ∙ ap (λ l. event status message class v.now t sp o ∷ l) e;
          kind = refl;
          honest = elim r [
            | inl (no_child, same) ↦ inl (
              no_child,
              ap (λ db. db.tasks) (send_event-db d status message class o v) ∙ same.tasks,
            )
            | inr (child, s) ↦ inr (
              child,
              (
                s.parent,
                s.spider,
                ap (λ db. db.tasks) (send_event-db d status message class o v) ∙ s.appended,
              ),
            )
          ];
        })
      ]

  after_status-Told :
      (d : Deps) (id : ℕ) (status : Status) (message class : Str) (u : World H)
      → let w' = (after_status d id status message class u (ok tt)).1 in
        (w'.sent ≡ u.sent) ⊎ ((is_terminal_status status ≡ true) × Told d status u w')
  unfolding after_status
  after_status-Told d id status message class u = elim (Bool-cases (is_terminal_status status)) [
    | inr e ↦ rw e (inl refl)
    | inl e ↦ elim (Bool-cases (may_retry status)) [
      | inl m ↦
          rw (e, m)
            (and_terminal (
              send_event-Told d id status message class u (maybe_schedule_retry d id class u).1
                (maybe_schedule_retry d id class u).0 (maybe_schedule_retry_lem d id class u)
                (maybe_schedule_retry-sent d id class u)))
      | inr m ↦
          rw (e, m)
            (and_terminal (
              send_event-Told d id status message class u (load_parent d id u).1
                (load_parent d id u).0 (inl (load_parent-Looked d id u)) (load_parent-sent d id u)))
    ]
  ]

  -- OnUpdate tells the notifier at most one event, and none unless the status is terminal. The event
  -- has the status as its kind, and it says that a retry follows exactly if a child row was appended
  -- to the rows with the new status; else those rows are all.
  pub on_update-Told :
      (d : Deps) (id : ℕ) (status : Status) (message class worker : Str) (w : World H)
      → let w' = (on_update d id status message class worker w).1 in
        (w'.sent ≡ w.sent)
        ⊎ ((is_terminal_status status ≡ true)
            × Told d status (stored id status message class worker w) w')
  unfolding on_update
  on_update-Told d id status message class worker w =
      elim (Result-cases (set_status w.now id status message class worker w.db).0) [
        | inl (e, q) ↦ inl (rw (q, on_update) refl)
        | inr (a, q) ↦
            rw (q, on_update)
              (after_status-Told d id status message class
                (stored id status message class worker w))
      ]
