-- ===== src/Task/Handlers.antt =====
-- internal/api/tasks/tasks.go: the handlers that read one task, queue one and cancel one, and the page
-- of a list of items.
use crawler_lite.Prelude.Base.{ℕ, ◌==◌, ◌||◌, Option, none, some, if◌then◌else◌}
use crawler_lite.Prelude.Int.{ℤ, pos, leb_ℤ, ltb_ℤ}
use crawler_lite.Prelude.Text.{codes}
use crawler_lite.Prelude.Json.{Fields}
use crawler_lite.Result.{no_source, Result, ok, err}
use crawler_lite.Api.Reply.{Reply, no_body, fail, send, path_int64, invalid_param, invalid_request}
use crawler_lite.Task.Model.{Task, CreateInput, World, HubOps, manual}
use crawler_lite.Task.Repo.{get}
use crawler_lite.Task.Service.{queue}
use crawler_lite.Task.Dispatch.{cancel}

pub record CreateReq : Type 0 where
  pub spider_id : ℕ
  pub args : Option Fields

abbrev pub create_input : CreateReq → CreateInput
create_input q = record {
  spider_id = q.spider_id;
  trigger = some manual;
  spider_version = pos 0;
  triggered_args = q.args;
  created_by = 0;
  parent_task_id = 0;
  attempt = pos 0;
  not_before = none;
}

unfoldable pub queue_reply : Result Task → Reply Task
queue_reply (err no_source) = fail 400 (codes "spider has no synced source — run /sync first")
queue_reply (err _) = fail 500 (codes "failed to queue")
queue_reply (ok t) = send 201 t

abbrev pub get_reply : Result Task → Reply Task
get_reply (err e) = fail 404 (codes "task not found")
get_reply (ok t) = send 200 t

abbrev pub cancel_reply : Result (Unit {0}) → Reply (Unit {0})
cancel_reply (err e) = fail 500 (codes "cancel failed")
cancel_reply (ok _) = record { status = 204; body = no_body }

-- The limit and the offset of a page of items, from what strconv.Atoi makes of the query.
unfoldable pub page_limit : ℤ → ℤ
page_limit n = if leb_ℤ n (pos 0) || ltb_ℤ (pos 500) n then pos 100 else n

unfoldable pub page_offset : ℤ → ℤ
page_offset n = if ltb_ℤ n (pos 0) then pos 0 else n

module _ {H : Type 0} where
  abbrev pub with_id :
      {A : Type 0} → Option ℕ → (ℕ → Reply A × World H) → World H → Reply A × World H
  with_id none next w = (invalid_param (codes "id"), w)
  with_id (some id) next w = next id

  unfoldable pub on_get : Option ℤ → World H → Reply Task × World H
  unfolding path_int64 get
  on_get param w =
      with_id (path_int64 param)
        (λ id. let (r, db) = get id w.db in (get_reply r, record w { db = db })) w

  unfoldable pub on_create : Option CreateReq → World H → Reply Task × World H
  unfolding queue queue_reply
  on_create none w = (invalid_request, w)
  on_create (some q) w =
      let (r, w') = queue (create_input q) w in
      if q.spider_id == 0 then (fail 400 (codes "spider_id required"), w) else (queue_reply r, w')

  unfoldable pub on_cancel : HubOps H → Option ℤ → World H → Reply (Unit {0}) × World H
  unfolding path_int64 cancel
  on_cancel hub param w =
      with_id (path_int64 param) (λ id. let (r, w') = cancel hub id w in (cancel_reply r, w')) w
