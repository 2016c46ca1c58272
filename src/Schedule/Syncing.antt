-- ===== src/Schedule/Syncing.antt =====
-- The registrations of internal/schedule/runner.go against the table, over any sequence of calls while
-- statements succeed.
use crawler_lite.Schedule.Steady.{
  InSync, refresh-calm, update_rows-absent, held_entries, current_entries,
}
use crawler_lite.Api.Reply.{path_int64, Reply}
use crawler_lite.Schedule.Runner.{
  run_stop, run_start, next_of, scheduled, looked_up, TaskQueuer, fire, fired, started, registered,
  reload_rows, reload, World,
}
use crawler_lite.Schedule.Handlers.{
  on_delete, on_update, answered, on_get, with_id, on_list, removed, update_input, create_input,
  update_found, CreateReq, UpdateReq, on_create, written,
}
use crawler_lite.Schedule.Repo.{
  marked, delete_row, changed, change_row, insert_row, with_next, mark_row, enabled_rows,
  list_enabled, find_schedule, update_next_run, update_rows,
}
use crawler_lite.Prelude.Base.{
  either_branch, ◌≡◌, refl, sym, ap, ◌∙◌, inl, inr, ℕ, false, Option, none, some, List, [], ◌∷◌,
}
use crawler_lite.Task.Model.{Task}
use crawler_lite.Result.{invalid_cron, invalid_input, err, Error, Result, ok}
use crawler_lite.Schedule.Checks.{change_cases, create_cases}
use crawler_lite.Store.{or_not_found, statement_calm, Store}
use crawler_lite.Prelude.Text.{Str, Unicode}
use crawler_lite.Schedule.Model.{Tables, Cron, Schedule}
use mathlib.Core.Option.{map}
use crawler_lite.Schedule.Service.{remove, get, list, mark_run}
use crawler_lite.Schedule.Repo
use crawler_lite.Schedule.Daemon.{Daemon, start, stop}
use crawler_lite.Schedule.Daemons.{exchanged-current}
use crawler_lite.Schedule.Reloading.{live, live-update_rows, refresh-live}
use crawler_lite.Schedule.Requests.{
  Call, lists, gets, deletes, creates, updates, fires, starts, stops, step, run,
}

module _ {Q : Type 0} (c : Cron) where
  reload-InSync : (w : World Q) → w.db.faults ≡ [] → InSync c (reload c w).1
  unfolding reload list_enabled reload_rows
  reload-InSync w e = rw (statement_calm (λ t. (ok (enabled_rows t.schedules), t)) w.db e) (record {
    calm =
        refresh-calm c w.now (registered c (enabled_rows w.db.tables.schedules))
          (record { tables = w.db.tables; faults = [] }) refl;
    same =
        ap (map (λ (d : Daemon). d.entries)) (exchanged-current _ w.daemons)
        ∙ ap some (
            sym (
              refresh-live c w.now (registered c (enabled_rows w.db.tables.schedules))
                (record { tables = w.db.tables; faults = [] })));
  })

  kept :
      (w : World Q) (db : Store Tables)
      → db.faults ≡ []
      → live c db.tables.schedules ≡ live c w.db.tables.schedules
      → InSync c w
      → InSync c (record w { db = db })
  kept w db e l h = record { calm = e; same = h.same ∙ ap some (sym l) }

  same_rows :
      (w : World Q)
      → InSync c w
      → InSync c (record w { db = record { tables = w.db.tables; faults = [] } })
  same_rows w h = record { calm = refl; same = h.same }

  -- A write that fails leaves the live rows, and one that succeeds is followed by a reload.
  written-InSync :
      (required other : Str) (status : ℕ) (r : Result Schedule × Store Tables) (w : World Q)
      → r.1.faults ≡ []
      → ((e : Error) → r.0 ≡ err e → live c r.1.tables.schedules ≡ live c w.db.tables.schedules)
      → InSync c w
      → InSync c (written c required other status r w).1
  unfolding written
  written-InSync required other status (err e, db) w f k h = kept w db f (k e refl) h
  written-InSync required other status (ok s, db) w f k h = reload-InSync (record w { db = db }) f

  create-InSync :
      (u : Unicode) (req : CreateReq) (w : World Q)
      → InSync c w
      → InSync c (on_create u c (some req) w).1
  unfolding on_create written Repo.insert
  create-InSync u req w h = elim (create_cases u c w.now (create_input req) w.db) [
    | inl (e, p) ↦ rw p (kept w w.db h.calm refl h)
    | inr (inl (v, e, p)) ↦ rw p (kept w w.db h.calm refl h)
    | inr (inr (s, n, v, p)) ↦
        rw (p ∙ statement_calm (insert_row w.now (create_input req)) w.db h.calm) (
          reload-InSync
            (record w {
              db = record {
                tables = (insert_row w.now (create_input req) w.db.tables).1;
                faults = [];
              };
            })
            refl)
  ]

  change-InSync :
      (u : Unicode) (id : ℕ) (req : Option UpdateReq) (w : World Q)
      → InSync c w
      → InSync c (update_found u c id req w).1
  unfolding Repo.update
  change-InSync u id none w h = h
  change-InSync u id (some req) w h = elim (change_cases u c w.now id (update_input req) w.db) [
    | inl (e, p) ↦ rw p (written-InSync _ _ 200 (err invalid_input, w.db) w h.calm (λ _ _. refl) h)
    | inr (inl (v, e, p)) ↦
        rw p (written-InSync _ _ 200 (err invalid_cron, w.db) w h.calm (λ _ _. refl) h)
    | inr (inr (n, v, p)) ↦
        rw (p ∙ statement_calm (change_row w.now id (update_input req)) w.db h.calm) (
          written-InSync _ _ 200 _ w refl
            (λ e q. ap (live c) (
              update_rows-absent id (changed w.now (update_input req)) w.db.tables.schedules
                (λ _. refl) (absent _ q)))
            h)
  ]
    where
      absent : (o : Option Schedule) {e : Error} → or_not_found o ≡ err e → o ≡ none
      absent none q = refl
      absent (some s) q = cc

  with_id-InSync :
      {A : Type 0} (o : Option ℕ) (next : ℕ → Reply A × World Q) (w : World Q)
      → InSync c w
      → ((id : ℕ) → InSync c (next id).1)
      → InSync c (with_id o next w).1
  with_id-InSync none next w h k = h
  with_id-InSync (some id) next w h k = k id

  answered-InSync :
      {A : Type 0} (refusal : Reply A) (r : Result A × Store Tables) (w : World Q)
      → InSync c (record w { db = r.1 })
      → InSync c (answered refusal r w).1
  answered-InSync refusal (err e, db) w h = h
  answered-InSync refusal (ok a, db) w h = h

  remove-InSync : (id : ℕ) (w : World Q) → InSync c w → InSync c (removed c (remove id w.db) w).1
  unfolding removed remove Repo.delete
  remove-InSync id w h = rw (statement_calm (delete_row id) w.db h.calm) (
      reload-InSync
        (record w { db = record { tables = (delete_row id w.db.tables).1; faults = [] } }) refl)

  fired-InSync :
      (id : ℕ) (s : Schedule) (r : Result Task × Q) (w : World Q)
      → InSync c w
      → InSync c (fired c id s r w)
  unfolding fired mark_run Repo.mark_run
  fired-InSync id s (err e, q) w h = record { calm = h.calm; same = h.same }
  fired-InSync id s (ok t, q) w h =
      let f = marked w.now w.now t.id (next_of w.now (c.parse s.cron_expr)) in
      rw (statement_calm (mark_row id f) w.db h.calm) (record {
        calm = refl;
        same =
            h.same
            ∙ ap some (
                sym (
                  live-update_rows c id f w.db.tables.schedules
                    (record { same_entry = λ _. refl; same_enabled = λ _. refl })));
      })

  fire-InSync :
      (queuer : TaskQueuer Q) (id : ℕ) (w : World Q) → InSync c w → InSync c (fire c queuer id w)
  unfolding fire get Repo.get
  fire-InSync queuer id w h =
      rw (statement_calm (λ t. (or_not_found (find_schedule id t.schedules), t)) w.db h.calm)
        (found_case (find_schedule id w.db.tables.schedules))
    where
      calm_db : Store Tables
      calm_db = record { tables = w.db.tables; faults = [] }

      found_case :
          (o : Option Schedule) → InSync c (looked_up c queuer id w (or_not_found o, calm_db))
      found_case none = record { calm = refl; same = h.same }
      found_case (some s) =
          either_branch (InSync c) s.enabled _ (record w { db = calm_db })
            (fired-InSync id s (queuer.queue (scheduled s) w.tasks) (record w { db = calm_db })
              (same_rows w h))
            (same_rows w h)

  start-InSync : (r : Result (Unit {0}) × World Q) → InSync c r.1 → InSync c (started r).1
  unfolding start
  start-InSync (err e, w) h = h
  start-InSync (ok _, w) h = record {
    calm = h.calm;
    same = current_entries w.daemons.current w.daemons refl ∙ h.same;
  }

  step-InSync :
      (u : Unicode) (queuer : TaskQueuer Q) (k : Call) (w : World Q)
      → InSync c w
      → InSync c (step u c queuer k w)
  unfolding step on_list on_get on_create on_update on_delete fire run_start run_stop stop list get
      Repo.list Repo.get path_int64
  step-InSync u queuer lists w h =
      answered-InSync _ (list w.db) w
        (rw (statement_calm (λ t. (ok t.schedules, t)) w.db h.calm) (same_rows w h))
  step-InSync u queuer (gets param) w h = with_id-InSync (path_int64 param) _ w h (λ id.
      answered-InSync _ (get id w.db) w (
        rw (statement_calm (λ t. (or_not_found (find_schedule id t.schedules), t)) w.db h.calm)
          (same_rows w h)))
  step-InSync u queuer (deletes param) w h =
      with_id-InSync (path_int64 param) _ w h (λ id. remove-InSync id w h)
  step-InSync u queuer (creates none) w h = h
  step-InSync u queuer (creates (some q)) w h = create-InSync u q w h
  step-InSync u queuer (updates param req) w h =
      with_id-InSync (path_int64 param) _ w h (λ id. change-InSync u id req w h)
  step-InSync u queuer (fires id) w h = fire-InSync queuer id w h
  step-InSync u queuer starts w h = start-InSync (reload c w) (reload-InSync w h.calm)
  step-InSync u queuer (stops n) w h = record {
    calm = h.calm;
    same = held_entries n false w.daemons.current w.daemons.made ∙ h.same;
  }

-- While no statement fails: after every sequence of requests, fires, starts and stops from a state in
-- which the registrations of the daemon that the runner holds are the enabled rows whose expression it
-- takes, in the order of the table, they still are.
pub run-InSync :
    {Q : Type 0} (u : Unicode) (c : Cron) (queuer : TaskQueuer Q) (ks : List Call) (w : World Q)
    → InSync c w
    → InSync c (run u c queuer ks w)
unfolding run
run-InSync u c queuer [] w h = h
run-InSync u c queuer (k ∷ ks) w h =
    run-InSync u c queuer ks (step u c queuer k w) (step-InSync c u queuer k w h)
