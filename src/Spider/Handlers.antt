-- ===== src/Spider/Handlers.antt =====
-- internal/api/spiders/spiders.go: the handlers, each from its decoded request to its reply.
use crawler_lite.Prelude.Base.{ℕ, Option, none, some, List}
use crawler_lite.Prelude.Int.{ℤ}
use crawler_lite.Prelude.Text.{Str, codes}
use crawler_lite.Prelude.Json.{Fields}
use crawler_lite.Result.{Error, no_git_url, invalid_input, error_text, Result, ok, err}
use crawler_lite.Store.{Store}
use crawler_lite.Api.Reply.{Reply, no_body, fail, send, path_int64, invalid_param, invalid_request}
use crawler_lite.Spider.Model.{Spider, CreateInput, UpdateInput}
use crawler_lite.Spider.Repo.{Tables, list, get, soft_delete}
use crawler_lite.Spider.Service.{World, SourceSyncer, create, change, sync}

pub record CreateReq : Type 0 where
  pub name : Str
  pub description : Str
  pub entry_module : Str
  pub config : Option Fields
  pub git_url : Str
  pub git_branch : Str

abbrev pub create_input : CreateReq → CreateInput
create_input q = record {
  project_id = 0;
  name = q.name;
  description = q.description;
  entry_module = q.entry_module;
  config = q.config;
  created_by = 0;
  git_url = q.git_url;
  git_branch = q.git_branch;
}

-- The replies to the errors of Create and of Sync.
unfoldable pub create_failed : Error → Reply Spider
create_failed invalid_input = fail 400 (codes "name and entry_module are required")
create_failed _ = fail 500 (codes "failed to create")

unfoldable pub sync_failure : Error → Reply Spider
sync_failure no_git_url = fail 400 (codes "spider has no git_url")
sync_failure e = fail 422 (error_text e)

-- The end of a handler: the reply to an error, or the status for the result.
abbrev pub answer : {A : Type 0} → (Error → Reply A) → (A → Reply A) → Result A → Reply A
answer refuse give (err e) = refuse e
answer refuse give (ok a) = give a

module _ {S : Type 0} where
  abbrev pub answered :
      {A : Type 0}
      → (Error → Reply A)
      → (A → Reply A)
      → Result A × Store Tables
      → World S
      → Reply A × World S
  answered refuse give (r, db) w = (answer refuse give r, record w { db = db })

  abbrev pub with_id :
      {A : Type 0} → Option ℕ → (ℕ → Reply A × World S) → World S → Reply A × World S
  with_id none next w = (invalid_param (codes "id"), w)
  with_id (some id) next w = next id

  unfoldable pub on_list : (List Spider → List Spider) → World S → Reply (List Spider) × World S
  unfolding list
  on_list by_name w =
      answered (λ e. fail 500 (codes "failed to list")) (send 200) (list by_name w.db) w

  unfoldable pub on_get : Option ℤ → World S → Reply Spider × World S
  unfolding path_int64 get
  on_get param w =
      with_id (path_int64 param)
        (λ id. answered (λ e. fail 404 (codes "spider not found")) (send 200) (get id w.db) w) w

  unfoldable pub on_create : Option CreateReq → World S → Reply Spider × World S
  unfolding create create_failed
  on_create none w = (invalid_request, w)
  on_create (some q) w = answered create_failed (send 201) (create w.now (create_input q) w.db) w

  -- The body of an update has the fields of its input.
  abbrev pub update_found : ℕ → Option UpdateInput → World S → Reply Spider × World S
  update_found id none w = (invalid_request, w)
  update_found id (some i) w =
      answered (λ e. fail 404 (codes "spider not found")) (send 200) (change w.now id i w.db) w

  unfoldable pub on_update : Option ℤ → Option UpdateInput → World S → Reply Spider × World S
  unfolding path_int64 change
  on_update param req w = with_id (path_int64 param) (λ id. update_found id req w) w

  unfoldable pub on_delete : Option ℤ → World S → Reply (Unit {0}) × World S
  unfolding path_int64 soft_delete
  on_delete param w =
      with_id (path_int64 param)
        (λ id.
          answered (λ e. fail 500 (codes "delete failed"))
            (λ _. record { status = 204; body = no_body }) (soft_delete id w.db) w)
        w

  abbrev pub sync_answered : Result Spider × World S → Reply Spider × World S
  sync_answered (r, w) = (answer sync_failure (send 200) r, w)

  unfoldable pub on_sync : SourceSyncer S → Option ℤ → World S → Reply Spider × World S
  unfolding path_int64 sync sync_failure
  on_sync syncer param w = with_id (path_int64 param) (λ id. sync_answered (sync syncer id w)) w
