-- ===== src/Notify/Handlers.antt =====
-- internal/api/notifications/notifications.go: the handlers, each from its decoded request to its reply. A
-- path parameter is what strconv.ParseInt answers, and a body that does not bind is `none`.
use crawler_lite.Prelude.Base.{ℕ, Bool, true, Option, none, some, List}
use crawler_lite.Prelude.Int.{ℤ}
use crawler_lite.Prelude.Text.{Str, codes}
use crawler_lite.Result.{Error, error_text, invalid_input, invalid_url, Result, ok, err}
use crawler_lite.Api.Reply.{Reply, no_body, fail, send, path_int64, invalid_param, invalid_request}
use crawler_lite.Notify.Model.{Channel, CreateInput, UpdateInput, Db, World, Env}
use crawler_lite.Notify.Repo.{get, list}
use crawler_lite.Notify.Service.{create, change, remove, send_test}

-- The body of a creation and of an update. `none` is an absent field, or a list that is null.
pub record ChannelReq : Type 0 where
  pub name : Str
  pub kind : Str
  pub url : Str
  pub events : Option (List Str)
  pub enabled : Option Bool

abbrev pub or_enabled : Option Bool → Bool
or_enabled none = true
or_enabled (some b) = b

abbrev pub create_input : ChannelReq → CreateInput
create_input q = record {
  name = q.name;
  kind = q.kind;
  url = q.url;
  events = q.events;
  enabled = or_enabled q.enabled;
  created_by = 0;
}

abbrev pub update_input : ChannelReq → UpdateInput
update_input q = record {
  name = q.name;
  kind = q.kind;
  url = q.url;
  events = q.events;
  enabled = or_enabled q.enabled;
}

-- The reply to a failed write: the message for invalid input and the one for the rest.
unfoldable pub failed : {A : Type 0} → Str → Str → Error → Reply A
failed required other invalid_input = fail 400 required
failed required other invalid_url = fail 400 (codes "invalid notification url")
failed required other _ = fail 500 other

abbrev pub with_id : {A : Type 0} → Option ℕ → (ℕ → Reply A × World) → World → Reply A × World
with_id none next w = (invalid_param (codes "id"), w)
with_id (some id) next w = next id

-- A read's answer.
abbrev pub answered : {A : Type 0} → Reply A → Result A × Db → World → Reply A × World
answered refusal (err e, db) w = (refusal, record w { db = db })
answered refusal (ok a, db) w = (send 200 a, record w { db = db })

-- A write's answer.
abbrev pub written : {A : Type 0} → Str → Str → ℕ → Result A × World → Reply A × World
written required other status (err e, w) = (failed required other e, w)
written required other status (ok a, w) = (send status a, w)

unfoldable pub on_list : World → Reply (List Channel) × World
unfolding list
on_list w = answered (fail 500 (codes "failed to list")) (list w.db) w

unfoldable pub on_get : Option ℤ → World → Reply Channel × World
unfolding path_int64 get
on_get param w =
    with_id (path_int64 param)
      (λ id. answered (fail 404 (codes "channel not found")) (get id w.db) w) w

unfoldable pub on_create : Env → Option ChannelReq → World → Reply Channel × World
unfolding create failed
on_create env none w = (invalid_request, w)
on_create env (some q) w =
    written (codes "name, kind, url, events all required") (codes "failed to create") 201
      (create env (create_input q) w)

abbrev pub update_found : Env → ℕ → Option ChannelReq → World → Reply Channel × World
update_found env id none w = (invalid_request, w)
update_found env id (some q) w =
    written (codes "name is required") (codes "failed to update") 200
      (change env id (update_input q) w)

unfoldable pub on_update : Env → Option ℤ → Option ChannelReq → World → Reply Channel × World
unfolding path_int64 change failed
on_update env param req w = with_id (path_int64 param) (λ id. update_found env id req w) w

abbrev pub removed : Result (Unit {0}) × World → Reply (Unit {0}) × World
removed (err e, w) = (fail 500 (codes "failed to delete"), w)
removed (ok _, w) = (record { status = 204; body = no_body }, w)

unfoldable pub on_delete : Option ℤ → World → Reply (Unit {0}) × World
unfolding path_int64 remove
on_delete param w = with_id (path_int64 param) (λ id. removed (remove id w)) w

-- A test that fails answers with the sender's message.
abbrev pub tested : Result (Unit {0}) × World → Reply (Unit {0}) × World
tested (err e, w) = (fail 502 (error_text e), w)
tested (ok _, w) = (send 200 tt, w)

unfoldable pub on_test : Env → Option ℤ → World → Reply (Unit {0}) × World
unfolding path_int64 send_test
on_test env param w = with_id (path_int64 param) (λ id. tested (send_test env id w)) w
