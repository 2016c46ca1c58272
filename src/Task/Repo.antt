-- ===== src/Task/Repo.antt =====
-- internal/repository/tasks.go, and the lookup of a spider: statements against the tables.
use crawler_lite.Prelude.Base.{
  ℕ, suc, ◌==◌, Bool, true, ◌&&◌, Option, none, some, List, [], ◌∷◌, ◌++◌, keep, if◌then◌else◌,
}
use crawler_lite.Prelude.Int.{ℤ, pos, ltb_ℤ, leb_ℤ}
use crawler_lite.Prelude.Text.{Str, is_empty}
use crawler_lite.Prelude.Json.{end}
use crawler_lite.Result.{db_error, not_found, Result, ok, err}
use crawler_lite.Spider.Model.{Time, Spider}
use crawler_lite.Task.Model.{
  Status, queued, Trigger, manual, Task, CreateInput, Db, is_terminal_status, is_queued, is_running,
}

-- A statement: it fails where the next outcome says so, and leaves the tables then.
unfoldable pub statement : {A : Type 0} → (Db → Result A × Db) → Db → Result A × Db
statement body db = elim db.faults [
  | [] ↦ body (record db { faults = [] })
  | none ∷ rest ↦ body (record db { faults = rest })
  | some message ∷ rest ↦ (err (db_error message), record db { faults = rest })
]

abbrev pub find_task : ℕ → List Task → Option Task
find_task id [] = none
find_task id (t ∷ ts) = if t.id == id then some t else find_task id ts

abbrev pub find_spider : ℕ → List Spider → Option Spider
find_spider id [] = none
find_spider id (s ∷ ss) = if s.id == id then some s else find_spider id ss

abbrev pub row_or_not_found {ℓ} : {A : Type ℓ} → Option A → Result A
row_or_not_found none = err not_found
row_or_not_found (some a) = ok a

unfoldable pub get : ℕ → Db → Result Task × Db
unfolding statement
get id = statement (λ db. (row_or_not_found (find_task id db.tasks), db))

unfoldable pub get_spider : ℕ → Db → Result Spider × Db
unfolding statement
get_spider id = statement (λ db. (row_or_not_found (find_spider id db.spiders), db))

abbrev pub or_manual : Option Trigger → Trigger
or_manual none = manual
or_manual (some t) = t

-- `max(in.Attempt, 1)`
abbrev pub at_least_one : ℤ → ℤ
at_least_one a = if ltb_ℤ a (pos 1) then pos 1 else a

-- The row that INSERT returns. The service has filled the trigger in.
unfoldable pub new_row : ℕ → Time → CreateInput → Task
new_row id now i = record {
  id = id;
  spider_id = i.spider_id;
  parent_task_id = i.parent_task_id;
  trigger = or_manual i.trigger;
  status = queued;
  spider_version = i.spider_version;
  worker_id = [];
  queued_at = now;
  started_at = none;
  finished_at = none;
  error = [];
  error_class = [];
  stats = end;
  triggered_args = i.triggered_args;
  attempt = at_least_one i.attempt;
  not_before = i.not_before;
}

-- Create. Its error of json.Marshal is left out: the arguments came from JSON and encode again.
unfoldable pub create : Time → CreateInput → Db → Result Task × Db
unfolding statement
create now i = statement (λ db.
    let row = new_row db.next_id now i in
    (ok row, record db { tasks = db.tasks ++ (row ∷ []); next_id = suc db.next_id }))

abbrev pub is_due : Time → Option Time → Bool
is_due now none = true
is_due now (some t) = leb_ℤ t now

abbrev pub is_eligible : Time → Task → Bool
is_eligible now t = is_queued t.status && is_due now t.not_before

-- ORDER BY queued_at: insertion into a sorted list, before the rows of the same time.
unfoldable pub insert_by_time : Task → List Task → List Task
insert_by_time t [] = t ∷ []
insert_by_time t (s ∷ ss) =
    if leb_ℤ t.queued_at s.queued_at then t ∷ s ∷ ss else s ∷ insert_by_time t ss

unfoldable pub order_by_time : List Task → List Task
unfolding insert_by_time
order_by_time [] = []
order_by_time (t ∷ ts) = insert_by_time t (order_by_time ts)

unfoldable pub list_queued : Time → Db → Result (List Task) × Db
unfolding statement
list_queued now = statement (λ db. (ok (order_by_time (keep (is_eligible now) db.tasks)), db))

abbrev pub first_start : Time → Option Time → Option Time
first_start now none = some now
first_start now (some t) = some t

-- The columns that SetStatus writes. NULLIF turns an empty text into NULL, which a scan reads as
-- the empty text.
unfoldable pub with_status : Time → Status → Str → Str → Str → Task → Task
with_status now status message class worker t = record t {
  status = status;
  error = message;
  error_class = class;
  worker_id = if is_empty worker then t.worker_id else worker;
  started_at = if is_running status then first_start now t.started_at else t.started_at;
  finished_at = if is_terminal_status status then some now else t.finished_at;
}

-- The rows after an UPDATE of one task.
unfoldable pub update_row : ℕ → (Task → Task) → List Task → List Task
update_row id f [] = []
update_row id f (t ∷ ts) = (if t.id == id then f t else t) ∷ update_row id f ts

unfoldable pub set_status : Time → ℕ → Status → Str → Str → Str → Db → Result (Unit {0}) × Db
unfolding statement
set_status now id status message class worker = statement (λ db. (
  ok tt,
  record db { tasks = update_row id (with_status now status message class worker) db.tasks },
))
