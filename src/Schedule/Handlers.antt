-- ===== src/Schedule/Handlers.antt =====
-- internal/api/schedules/schedules.go: the handlers, each from its decoded request to its reply. A
-- path parameter is what strconv.ParseInt answers, and a body that does not bind is `none`.
use crawler_lite.Prelude.Base.{ℕ, Bool, true, Option, none, some, List}
use crawler_lite.Prelude.Int.{ℤ}
use crawler_lite.Prelude.Text.{Str, codes, Unicode}
use crawler_lite.Prelude.Json.{Fields}
use crawler_lite.Result.{Error, invalid_input, invalid_cron, Result, ok, err}
use crawler_lite.Store.{Store}
use crawler_lite.Api.Reply.{Reply, no_body, fail, send, path_int64, invalid_param, invalid_request}
use crawler_lite.Schedule.Model.{Schedule, CreateInput, UpdateInput, Tables, Cron}
use crawler_lite.Schedule.Service.{get, list, create, change, remove}
use crawler_lite.Schedule.Runner.{World, reload}

pub record CreateReq : Type 0 where
  pub spider_id : ℕ
  pub name : Str
  pub cron_expr : Str
  pub args : Option Fields
  pub enabled : Option Bool

pub record UpdateReq : Type 0 where
  pub name : Str
  pub cron_expr : Str
  pub args : Option Fields
  pub enabled : Option Bool

abbrev pub or_enabled : Option Bool → Bool
or_enabled none = true
or_enabled (some b) = b

abbrev pub create_input : CreateReq → CreateInput
create_input q = record {
  spider_id = q.spider_id;
  name = q.name;
  cron_expr = q.cron_expr;
  args = q.args;
  enabled = or_enabled q.enabled;
  created_by = 0;
}

abbrev pub update_input : UpdateReq → UpdateInput
update_input q = record {
  name = q.name;
  cron_expr = q.cron_expr;
  args = q.args;
  enabled = or_enabled q.enabled;
}

-- The reply to a failed write: the message for invalid input and the one for the rest.
unfoldable pub failed : {A : Type 0} → Str → Str → Error → Reply A
failed required other invalid_input = fail 400 required
failed required other invalid_cron = fail 400 (codes "invalid cron expression")
failed required other _ = fail 500 other

module _ {Q : Type 0} where
  -- A handler's end: the reload's error is only logged.
  abbrev pub reloaded : {A : Type 0} → Cron → Reply A → World Q → Reply A × World Q
  reloaded c reply w = (reply, (reload c w).1)

  -- A read's answer.
  abbrev pub answered :
      {A : Type 0} → Reply A → Result A × Store Tables → World Q → Reply A × World Q
  answered refusal (err e, db) w = (refusal, record w { db = db })
  answered refusal (ok a, db) w = (send 200 a, record w { db = db })

  unfoldable pub on_list : World Q → Reply (List Schedule) × World Q
  unfolding list
  on_list w = answered (fail 500 (codes "failed to list")) (list w.db) w

  abbrev pub with_id :
      {A : Type 0} → Option ℕ → (ℕ → Reply A × World Q) → World Q → Reply A × World Q
  with_id none next w = (invalid_param (codes "id"), w)
  with_id (some id) next w = next id

  unfoldable pub on_get : Option ℤ → World Q → Reply Schedule × World Q
  unfolding path_int64 get
  on_get param w =
      with_id (path_int64 param)
        (λ id. answered (fail 404 (codes "schedule not found")) (get id w.db) w) w

  -- A written row is sent after the reload.
  unfoldable pub written :
      Cron → Str → Str → ℕ → Result Schedule × Store Tables → World Q → Reply Schedule × World Q
  unfolding reload failed
  written c required other status (err e, db) w = (failed required other e, record w { db = db })
  written c required other status (ok s, db) w = reloaded c (send status s) (record w { db = db })

  unfoldable pub on_create : Unicode → Cron → Option CreateReq → World Q → Reply Schedule × World Q
  unfolding create written
  on_create u c none w = (invalid_request, w)
  on_create u c (some q) w =
      written c (codes "spider_id and name are required") (codes "failed to create") 201
        (create u c w.now (create_input q) w.db) w

  abbrev pub update_found :
      Unicode → Cron → ℕ → Option UpdateReq → World Q → Reply Schedule × World Q
  update_found u c id none w = (invalid_request, w)
  update_found u c id (some q) w =
      written c (codes "name is required") (codes "failed to update") 200
        (change u c w.now id (update_input q) w.db) w

  unfoldable pub on_update :
      Unicode → Cron → Option ℤ → Option UpdateReq → World Q → Reply Schedule × World Q
  unfolding path_int64 change written
  on_update u c param req w = with_id (path_int64 param) (λ id. update_found u c id req w) w

  unfoldable pub removed :
      Cron → Result (Unit {0}) × Store Tables → World Q → Reply (Unit {0}) × World Q
  unfolding reload
  removed c (err e, db) w = (fail 500 (codes "failed to delete"), record w { db = db })
  removed c (ok _, db) w =
      reloaded c (record { status = 204; body = no_body }) (record w { db = db })

  unfoldable pub on_delete : Cron → Option ℤ → World Q → Reply (Unit {0}) × World Q
  unfolding path_int64 remove removed
  on_delete c param w = with_id (path_int64 param) (λ id. removed c (remove id w.db) w) w
