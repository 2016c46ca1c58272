-- ===== src/Schedule/Repo.antt =====
-- internal/repository/schedules.go: statements on the table of schedules. Of the foreign key on the
-- spider only the failure shows, as a failed statement.
use crawler_lite.Prelude.Base.{
  ℕ, suc, ◌==◌, not, Option, none, some, List, [], ◌∷◌, ◌++◌, keep, if◌then◌else◌,
}
use crawler_lite.Prelude.Json.{Fields, end}
use crawler_lite.Result.{Result, ok}
use crawler_lite.Store.{Store, statement, or_not_found}
use crawler_lite.Spider.Model.{Time}
use crawler_lite.Schedule.Model.{Schedule, CreateInput, UpdateInput, Tables}

abbrev pub or_no_args : Option Fields → Fields
or_no_args none = end
or_no_args (some a) = a

abbrev pub find_schedule : ℕ → List Schedule → Option Schedule
find_schedule id [] = none
find_schedule id (s ∷ ss) = if s.id == id then some s else find_schedule id ss

abbrev pub new_schedule : ℕ → Time → CreateInput → Schedule
new_schedule id now i = record {
  id = id;
  spider_id = i.spider_id;
  name = i.name;
  cron_expr = i.cron_expr;
  args = or_no_args i.args;
  enabled = i.enabled;
  last_run_at = none;
  last_task_id = 0;
  next_run_at = none;
  created_at = now;
  updated_at = now;
}

abbrev pub insert_row : Time → CreateInput → Tables → Result Schedule × Tables
insert_row now i t =
    let row = new_schedule t.next_id now i in
    (ok row, record { schedules = t.schedules ++ (row ∷ []); next_id = suc t.next_id })

unfoldable pub insert : Time → CreateInput → Store Tables → Result Schedule × Store Tables
unfolding statement
insert now i = statement (insert_row now i)

unfoldable pub get : ℕ → Store Tables → Result Schedule × Store Tables
unfolding statement
get id = statement (λ t. (or_not_found (find_schedule id t.schedules), t))

unfoldable pub list : Store Tables → Result (List Schedule) × Store Tables
unfolding statement
list = statement (λ t. (ok t.schedules, t))

abbrev pub enabled_rows : List Schedule → List Schedule
enabled_rows rows = keep (λ s. s.enabled) rows

unfoldable pub list_enabled : Store Tables → Result (List Schedule) × Store Tables
unfolding statement
list_enabled = statement (λ t. (ok (enabled_rows t.schedules), t))

abbrev pub update_rows : ℕ → (Schedule → Schedule) → List Schedule → List Schedule
update_rows id f [] = []
update_rows id f (s ∷ ss) = (if s.id == id then f s else s) ∷ update_rows id f ss

abbrev pub changed : Time → UpdateInput → Schedule → Schedule
changed now i s = record s {
  name = i.name;
  cron_expr = i.cron_expr;
  args = or_no_args i.args;
  enabled = i.enabled;
  updated_at = now;
}

abbrev pub change_row : Time → ℕ → UpdateInput → Tables → Result Schedule × Tables
change_row now id i t =
    let rows = update_rows id (changed now i) t.schedules in
    (or_not_found (find_schedule id rows), record t { schedules = rows })

unfoldable pub update : Time → ℕ → UpdateInput → Store Tables → Result Schedule × Store Tables
unfolding statement
update now id i = statement (change_row now id i)

abbrev pub delete_row : ℕ → Tables → Result (Unit {0}) × Tables
delete_row id t = (ok tt, record t { schedules = keep (λ s. not (s.id == id)) t.schedules })

unfoldable pub delete : ℕ → Store Tables → Result (Unit {0}) × Store Tables
unfolding statement
delete id = statement (delete_row id)

abbrev pub marked : Time → Time → ℕ → Option Time → Schedule → Schedule
marked now at task next s = record s {
  last_run_at = some at;
  last_task_id = task;
  next_run_at = next;
  updated_at = now;
}

abbrev pub mark_row : ℕ → (Schedule → Schedule) → Tables → Result (Unit {0}) × Tables
mark_row id f t = (ok tt, record t { schedules = update_rows id f t.schedules })

unfoldable pub mark_run :
    Time → ℕ → Time → ℕ → Option Time → Store Tables → Result (Unit {0}) × Store Tables
unfolding statement
mark_run now id at task next = statement (mark_row id (marked now at task next))

abbrev pub with_next : Option Time → Schedule → Schedule
with_next next s = record s { next_run_at = next }

unfoldable pub update_next_run : ℕ → Option Time → Store Tables → Result (Unit {0}) × Store Tables
unfolding statement
update_next_run id next = statement (mark_row id (with_next next))
