-- ===== src/Schedule/Validity.antt =====
-- What internal/schedule/service.go lets into the table.
use crawler_lite.Prelude.Base.{
  either_branch, inl, inr, ℕ, Option, none, some, List, [], ◌∷◌, All, All-append,
}
use crawler_lite.Schedule.Checks.{IsValid, create_cases, change_cases, Rows}
use crawler_lite.Schedule.Handlers.{
  answered, with_id, create_input, UpdateReq, written, update_input, on_list, on_get, on_create,
  on_update, update_found, on_delete, removed,
}
use crawler_lite.Schedule.Runner.{
  scheduled, looked_up, registered, started, World, TaskQueuer, reload, reload_rows, fire, fired,
  run_start, run_stop,
}
use crawler_lite.Api.Reply.{Reply, path_int64}
use crawler_lite.Store.{or_not_found, Store, statement_keeps}
use crawler_lite.Prelude.Text.{Str, Unicode}
use crawler_lite.Result.{Result, ok, err}
use crawler_lite.Spider.Model.{Time}
use crawler_lite.Task.Model.{Task}
use crawler_lite.Schedule.Model.{Schedule, CreateInput, UpdateInput, Tables, Cron}
use crawler_lite.Schedule.Repo.{
  insert_row, new_schedule, change_row, changed, delete_row, mark_row, marked, enabled_rows,
  find_schedule,
}
use crawler_lite.Schedule.Repo
use crawler_lite.Schedule.Service.{create, change, remove, get, list, mark_run}
use crawler_lite.Schedule.Rows.{keep-All, update_rows-All, refresh_keeps, reload_cases}
use crawler_lite.Schedule.Requests.{
  Call, lists, gets, deletes, creates, updates, fires, starts, stops, step, run,
}

module _ (u : Unicode) (c : Cron) where
  create_keeps :
      (now : Time) (i : CreateInput) (db : Store Tables)
      → Rows u c db.tables
      → Rows u c (create u c now i db).1.tables
  unfolding Repo.insert
  create_keeps now i db h = elim (create_cases u c now i db) [
    | inl (e, q) ↦ rw q h
    | inr (inl (v, e, q)) ↦ rw q h
    | inr (inr (s, n, v, q)) ↦ rw q (
        statement_keeps (Rows u c) (insert_row now i) db h (
          All-append (IsValid u c) db.tables.schedules _ h
            (record { spider = s; named = n; parses = v }, tt)))
  ]

  change_keeps :
      (now : Time) (id : ℕ) (i : UpdateInput) (db : Store Tables)
      → Rows u c db.tables
      → Rows u c (change u c now id i db).1.tables
  unfolding Repo.update
  change_keeps now id i db h = elim (change_cases u c now id i db) [
    | inl (e, q) ↦ rw q h
    | inr (inl (v, e, q)) ↦ rw q h
    | inr (inr (n, v, q)) ↦ rw q (
        statement_keeps (Rows u c) (change_row now id i) db h (
          update_rows-All (IsValid u c) id (changed now i) db.tables.schedules
            (λ s k. record { spider = k.spider; named = n; parses = v }) h))
  ]

  remove_keeps :
      (id : ℕ) (db : Store Tables) → Rows u c db.tables → Rows u c (remove id db).1.tables
  unfolding remove Repo.delete
  remove_keeps id db h =
      statement_keeps (Rows u c) (delete_row id) db h
        (keep-All (IsValid u c) _ db.tables.schedules h)

  get_keeps : (id : ℕ) (db : Store Tables) → Rows u c db.tables → Rows u c (get id db).1.tables
  unfolding get Repo.get
  get_keeps id db h =
      statement_keeps (Rows u c) (λ t. (or_not_found (find_schedule id t.schedules), t)) db h h

  list_keeps : (db : Store Tables) → Rows u c db.tables → Rows u c (list db).1.tables
  unfolding list Repo.list
  list_keeps db h = statement_keeps (Rows u c) (λ t. (ok t.schedules, t)) db h h

  mark_run_keeps :
      (now : Time) (id : ℕ) (at : Time) (task : ℕ) (next : Option Time) (db : Store Tables)
      → Rows u c db.tables
      → Rows u c (mark_run now id at task next db).1.tables
  unfolding mark_run Repo.mark_run
  mark_run_keeps now id at task next db h =
      statement_keeps (Rows u c) (mark_row id (marked now at task next)) db h (
        update_rows-All (IsValid u c) id (marked now at task next) db.tables.schedules
          (λ s k. record { spider = k.spider; named = k.named; parses = k.parses }) h)

module _ {Q : Type 0} (u : Unicode) (c : Cron) where
  abbrev Valid : World Q → Type 0
  Valid w = Rows u c w.db.tables

  reload_keeps : (w : World Q) → Valid w → Valid (reload c w).1
  unfolding reload_rows
  reload_keeps w h = elim (reload_cases c w) [
    | inl (e, l, q) ↦ rw q h
    | inr (l, q) ↦ rw q (
        refresh_keeps (IsValid u c)
          (λ next s k. record { spider = k.spider; named = k.named; parses = k.parses }) c w.now
          (registered c (enabled_rows w.db.tables.schedules)) (record w.db { faults = l }) h)
  ]

  written_keeps :
      (required other : Str) (status : ℕ) (r : Result Schedule × Store Tables) (w : World Q)
      → Rows u c r.1.tables
      → Valid (written c required other status r w).1
  unfolding written
  written_keeps required other status (err e, db) w h = h
  written_keeps required other status (ok s, db) w h = reload_keeps (record w { db = db }) h

  update_found_keeps :
      (id : ℕ) (req : Option UpdateReq) (w : World Q)
      → Valid w
      → Valid (update_found u c id req w).1
  update_found_keeps id none w h = h
  update_found_keeps id (some q) w h =
      written_keeps _ _ 200 _ w (change_keeps u c w.now id (update_input q) w.db h)

  removed_keeps :
      (r : Result (Unit {0}) × Store Tables) (w : World Q)
      → Rows u c r.1.tables
      → Valid (removed c r w).1
  unfolding removed
  removed_keeps (err e, db) w h = h
  removed_keeps (ok _, db) w h = reload_keeps (record w { db = db }) h

  fired_keeps :
      (id : ℕ) (s : Schedule) (r : Result Task × Q) (w : World Q)
      → Valid w
      → Valid (fired c id s r w)
  unfolding fired
  fired_keeps id s (err e, q) w h = h
  fired_keeps id s (ok t, q) w h = mark_run_keeps u c w.now id w.now t.id _ w.db h

  answered_keeps :
      {A : Type 0} (refusal : Reply A) (r : Result A × Store Tables) (w : World Q)
      → Rows u c r.1.tables
      → Valid (answered refusal r w).1
  answered_keeps refusal (err e, db) w h = h
  answered_keeps refusal (ok a, db) w h = h

  with_id_keeps :
      {A : Type 0} (o : Option ℕ) (next : ℕ → Reply A × World Q) (w : World Q)
      → Valid w
      → ((id : ℕ) → Valid (next id).1)
      → Valid (with_id o next w).1
  with_id_keeps none next w h k = h
  with_id_keeps (some id) next w h k = k id

  looked_up_keeps :
      (queuer : TaskQueuer Q) (id : ℕ) (w : World Q) (r : Result Schedule × Store Tables)
      → Rows u c r.1.tables
      → Valid (looked_up c queuer id w r)
  looked_up_keeps queuer id w (err e, db) h = h
  looked_up_keeps queuer id w (ok s, db) h =
      either_branch Valid s.enabled _ (record w { db = db })
        (fired_keeps id s (queuer.queue (scheduled s) w.tasks) (record w { db = db }) h) h

  started_keeps : (r : Result (Unit {0}) × World Q) → Valid r.1 → Valid (started r).1
  started_keeps (err e, w) h = h
  started_keeps (ok _, w) h = h

  step_keeps :
      (queuer : TaskQueuer Q) (k : Call) (w : World Q) → Valid w → Valid (step u c queuer k w)
  unfolding step on_list on_get on_create on_update on_delete fire run_start run_stop
  step_keeps queuer lists w h = answered_keeps _ (list w.db) w (list_keeps u c w.db h)
  step_keeps queuer (gets param) w h =
      with_id_keeps (path_int64 param) _ w h
        (λ id. answered_keeps _ (get id w.db) w (get_keeps u c id w.db h))
  step_keeps queuer (deletes param) w h =
      with_id_keeps (path_int64 param) _ w h
        (λ id. removed_keeps (remove id w.db) w (remove_keeps u c id w.db h))
  step_keeps queuer (creates none) w h = h
  step_keeps queuer (creates (some q)) w h =
      written_keeps _ _ 201 _ w (create_keeps u c w.now (create_input q) w.db h)
  step_keeps queuer (updates param req) w h =
      with_id_keeps (path_int64 param) _ w h (λ id. update_found_keeps id req w h)
  step_keeps queuer (fires id) w h =
      looked_up_keeps queuer id w (get id w.db) (get_keeps u c id w.db h)
  step_keeps queuer starts w h = started_keeps (reload c w) (reload_keeps w h)
  step_keeps queuer (stops held) w h = h

-- Every sequence of requests to the schedule endpoints, fires of the cron, starts and stops of the
-- runner, whatever statements fail on the way, keeps this: each stored schedule has a spider, a name
-- that is not blank, and an expression that ValidateCron accepts.
pub run-IsValid :
    {Q : Type 0} (u : Unicode) (c : Cron) (queuer : TaskQueuer Q) (ks : List Call) (w : World Q)
    → All (IsValid u c) w.db.tables.schedules
    → All (IsValid u c) (run u c queuer ks w).db.tables.schedules
unfolding run
run-IsValid u c queuer [] w h = h
run-IsValid u c queuer (k ∷ ks) w h =
    run-IsValid u c queuer ks (step u c queuer k w) (step_keeps u c queuer k w h)
