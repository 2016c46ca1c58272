-- ===== src/Sink/Rows.antt =====
-- internal/repository/items.go and internal/repository/artifacts.go: the items and artifacts of the tasks, as
-- statements on their tables; and the item and artifact sinks of internal/hub/sinks.go.
use crawler_lite.Sink.Tables.{Item, ItemInsert, Screenshot, ScreenshotInsert, Har, LogIndex, Tables}
use crawler_lite.Prelude.Base.{
  ℕ, suc, ◌+◌, ◌==◌, Option, none, some, List, [], ◌∷◌, ◌++◌, keep, length, take, drop,
  if◌then◌else◌,
}
use crawler_lite.Prelude.Int.{ℤ, pos, leb_ℤ, is_zero}
use crawler_lite.Prelude.Text.{Str, codes, str_eq, is_empty}
use crawler_lite.Result.{failure, Result, ok, err}
use crawler_lite.Store.{Store, statement, or_not_found}
use crawler_lite.Hub.Model.{ArtifactRef}
use crawler_lite.Sink.Model.{Counts, LogIndexUpsert}

-- Items.
abbrev pub insert_item : (Str → Str) → ℤ → ItemInsert → Tables → Result ℕ × Tables
insert_item sha256 now i t = (
  ok t.next_item,
  record t {
    items =
        t.items
        ++ (record {
          id = t.next_item;
          task_id = i.task_id;
          spider_id = i.spider_id;
          payload = i.payload_json;
          payload_hash = sha256 i.payload_json;
          created_at = now;
        }
            ∷ []);
    next_item = suc t.next_item;
  },
)

-- ItemRepo.Insert
unfoldable pub insert : (Str → Str) → ℤ → ItemInsert → Store Tables → Result ℕ × Store Tables
unfolding statement
insert sha256 now i = statement (insert_item sha256 now i)

abbrev pub items_of : ℕ → List Item → List Item
items_of task rows = keep (λ i. i.task_id == task) rows

-- ItemRepo.ListByTask: the rows are in the order of ids.
unfoldable pub list_by_task : ℕ → ℕ → ℕ → Store Tables → Result (List Item) × Store Tables
unfolding statement
list_by_task task limit offset =
    statement (λ t. (ok (take limit (drop offset (items_of task t.items))), t))

-- ItemRepo.CountByTask
unfoldable pub count_by_task : ℕ → Store Tables → Result ℕ × Store Tables
unfolding statement
count_by_task task = statement (λ t. (ok (length (items_of task t.items)), t))

-- Screenshots. NULLIF
abbrev pub null_if_empty : Str → Option Str
null_if_empty s = if is_empty s then none else some s

abbrev pub null_if_zero : ℤ → Option ℤ
null_if_zero z = if is_zero z then none else some z

abbrev pub shot_row : ℕ → ℤ → ScreenshotInsert → Screenshot
shot_row id now i = record {
  id = id;
  task_id = i.task_id;
  taken_at = now;
  name = i.name;
  url = null_if_empty i.url;
  storage_key = i.storage_key;
  width = null_if_zero i.width;
  height = null_if_zero i.height;
  bytes = i.bytes;
}

abbrev pub insert_shot : ℤ → ScreenshotInsert → Tables → Result (Unit {0}) × Tables
insert_shot now i t = (
  ok tt,
  record t {
    screenshots = t.screenshots ++ (shot_row t.next_screenshot now i ∷ []);
    next_screenshot = suc t.next_screenshot;
  },
)

unfoldable pub insert_screenshot :
    ℤ → ScreenshotInsert → Store Tables → Result (Unit {0}) × Store Tables
unfolding statement
insert_screenshot now i = statement (insert_shot now i)

-- ORDER BY taken_at: insertion into a sorted list, behind no row of a later time.
abbrev pub insert_by_time : Screenshot → List Screenshot → List Screenshot
insert_by_time s [] = s ∷ []
insert_by_time s (r ∷ rs) =
    if leb_ℤ s.taken_at r.taken_at then s ∷ r ∷ rs else r ∷ insert_by_time s rs

abbrev pub by_time : List Screenshot → List Screenshot
by_time [] = []
by_time (s ∷ ss) = insert_by_time s (by_time ss)

-- ListScreenshots. COALESCE reads NULL as the empty text or 0 again.
unfoldable pub list_screenshots : ℕ → Store Tables → Result (List Screenshot) × Store Tables
unfolding statement
list_screenshots task =
    statement (λ t. (ok (by_time (keep (λ s. s.task_id == task) t.screenshots)), t))

-- HARs: one row to a task.
abbrev pub put_har : Har → List Har → List Har
put_har h [] = h ∷ []
put_har h (r ∷ rs) = if r.task_id == h.task_id then h ∷ rs else r ∷ put_har h rs

unfoldable pub upsert_har : Har → Store Tables → Result (Unit {0}) × Store Tables
unfolding statement
upsert_har h = statement (λ t. (ok tt, record t { hars = put_har h t.hars }))

-- `||` of jsonb: the keys on the right win.
abbrev pub set_count : Str → ℕ → Counts → Counts
set_count k n [] = (k, n) ∷ []
set_count k n ((j, m) ∷ cs) = if str_eq j k then (j, n) ∷ cs else (j, m) ∷ set_count k n cs

abbrev pub override : Counts → Counts → Counts
override left [] = left
override left ((k, n) ∷ cs) = set_count k n (override left cs)

abbrev pub new_index : ℤ → LogIndexUpsert → LogIndex
new_index now u = record {
  task_id = u.task_id;
  log_key = u.log_key;
  bytes = u.add_bytes;
  line_count = u.add_lines;
  level_counts = u.level_counts;
  updated_at = now;
}

abbrev pub bumped : ℤ → LogIndexUpsert → LogIndex → LogIndex
bumped now u r = record r {
  log_key = u.log_key;
  bytes = r.bytes + u.add_bytes;
  line_count = r.line_count + u.add_lines;
  level_counts = override r.level_counts u.level_counts;
  updated_at = now;
}

abbrev pub put_index : ℤ → LogIndexUpsert → List LogIndex → List LogIndex
put_index now u [] = new_index now u ∷ []
put_index now u (r ∷ rs) =
    if r.task_id == u.task_id then bumped now u r ∷ rs else r ∷ put_index now u rs

-- UpsertLogIndex
unfoldable pub upsert_log_index :
    ℤ → LogIndexUpsert → Store Tables → Result (Unit {0}) × Store Tables
unfolding statement
upsert_log_index now u =
    statement (λ t. (ok tt, record t { log_index = put_index now u t.log_index }))

abbrev pub find_index : ℕ → List LogIndex → Option LogIndex
find_index task [] = none
find_index task (r ∷ rs) = if r.task_id == task then some r else find_index task rs

-- GetLogIndex. The driver's ErrNoRows stands as not_found.
unfoldable pub get_log_index : ℕ → Store Tables → Result LogIndex × Store Tables
unfolding statement
get_log_index task = statement (λ t. (or_not_found (find_index task t.log_index), t))

-- ItemSinkDB.Write
unfoldable pub write_item :
    (Str → Str) → ℤ → ℕ → ℕ → Str → Store Tables → Result (Unit {0}) × Store Tables
unfolding insert
write_item sha256 now task spider payload db =
    let (r, db') =
      insert sha256 now (record { task_id = task; spider_id = spider; payload_json = payload })
        db in
    (elim r [ ok _ ↦ ok tt | err e ↦ err e ], db')

abbrev pub shot_of : ArtifactRef → ScreenshotInsert
shot_of a = record {
  task_id = a.task_id;
  name = a.name;
  url = a.url;
  storage_key = a.storage_key;
  width = a.width;
  height = a.height;
  bytes = a.bytes;
}

abbrev pub har_of : ArtifactRef → Har
har_of a = record {
  task_id = a.task_id;
  storage_key = a.storage_key;
  request_count = pos 0;
  total_bytes = a.bytes;
}

-- ArtifactSinkDB.Write
unfoldable pub write_artifact : ℤ → ArtifactRef → Store Tables → Result (Unit {0}) × Store Tables
unfolding insert_screenshot upsert_har
write_artifact now a db =
    if str_eq a.kind (codes "screenshot")
    then insert_screenshot now (shot_of a) db
    else if str_eq a.kind (codes "har")
    then upsert_har (har_of a) db
    else (err (failure (codes "unknown artifact kind: " ++ a.kind)), db)
