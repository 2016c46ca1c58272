-- ===== src/Task/Outputs.antt =====
-- internal/api/tasks/tasks.go: the handlers that list the items and the screenshots of a task and send its
-- stored log. The object store's answers are parameters.
use crawler_lite.Prelude.Base.{ℕ, Option, none, some, List, [], ◌∷◌}
use crawler_lite.Prelude.Int.{ℤ, pos}
use crawler_lite.Prelude.Text.{Str, codes}
use crawler_lite.Result.{Result, ok, err}
use crawler_lite.Store.{Store}
use crawler_lite.Api.Reply.{Reply, no_body, fail, send, path_int64, invalid_param}
use crawler_lite.Sink.Tables.{Item, Screenshot, LogIndex, Tables}
use crawler_lite.Sink.Rows.{list_by_task, list_screenshots, get_log_index}
use crawler_lite.Task.Handlers.{page_limit, page_offset}

abbrev pub to_nat : ℤ → ℕ
to_nat (pos n) = n
to_nat _ = 0

abbrev pub with_id :
    {A : Type 0} → Option ℕ → (ℕ → Reply A × Store Tables) → Store Tables → Reply A × Store Tables
with_id none next db = (invalid_param (codes "id"), db)
with_id (some id) next db = next id

abbrev pub listed : {A : Type 0} → Str → Result A → Reply A
listed message (err e) = fail 500 message
listed message (ok a) = send 200 a

-- GET /tasks/:id/items, on what strconv.Atoi makes of the query.
unfoldable pub on_items : Option ℤ → ℤ → ℤ → Store Tables → Reply (List Item) × Store Tables
unfolding path_int64 page_limit page_offset list_by_task
on_items param limit offset db =
    with_id (path_int64 param)
      (λ id.
        let (r, db') =
          list_by_task id (to_nat (page_limit limit)) (to_nat (page_offset offset)) db in
        (listed (codes "failed to list items") r, db'))
      db

-- An entry of the answer, with its presigned URL.
pub record ShotReply : Type 0 where
  pub shot : Screenshot
  pub url : Str

abbrev pub url_or_empty : Result Str → Str
url_or_empty (ok url) = url
url_or_empty (err e) = []

abbrev pub shot_replies : (Str → Result Str) → List Screenshot → List ShotReply
shot_replies presign [] = []
shot_replies presign (s ∷ ss) =
    record { shot = s; url = url_or_empty (presign s.storage_key) } ∷ shot_replies presign ss

abbrev pub shots_listed : (Str → Result Str) → Result (List Screenshot) → Reply (List ShotReply)
shots_listed presign (err e) = fail 500 (codes "failed to list screenshots")
shots_listed presign (ok ss) = send 200 (shot_replies presign ss)

-- GET /tasks/:id/screenshots
unfoldable pub on_screenshots :
    (Str → Result Str) → Option ℤ → Store Tables → Reply (List ShotReply) × Store Tables
unfolding path_int64 list_screenshots
on_screenshots presign param db =
    with_id (path_int64 param)
      (λ id. let (r, db') = list_screenshots id db in (shots_listed presign r, db')) db

abbrev pub log_fetched : Result Str → Reply Str
log_fetched (err e) = fail 500 (codes "failed to fetch log")
log_fetched (ok body) = send 200 body

abbrev pub log_reply : (Str → Result Str) → Result LogIndex → Reply Str
log_reply download (err e) = record { status = 204; body = no_body }
log_reply download (ok row) = log_fetched (download row.log_key)

-- GET /tasks/:id/log
unfoldable pub on_log : (Str → Result Str) → Option ℤ → Store Tables → Reply Str × Store Tables
unfolding path_int64 get_log_index
on_log download param db =
    with_id (path_int64 param)
      (λ id. let (r, db') = get_log_index id db in (log_reply download r, db')) db
