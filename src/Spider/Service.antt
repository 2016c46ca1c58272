-- ===== src/Spider/Service.antt =====
-- internal/spider/service.go: CRUD, and Sync over a source syncer.
use crawler_lite.Prelude.Base.{ℕ, ◌==◌, ◌||◌, Option, none, some, if◌then◌else◌}
use crawler_lite.Prelude.Text.{is_empty}
use crawler_lite.Prelude.Json.{Fields, end}
use crawler_lite.Result.{no_git_url, invalid_input, error_text, Result, ok, err}
use crawler_lite.Store.{Store}
use crawler_lite.Spider.Model.{Time, Spider, SpiderStatus, active, CreateInput, UpdateInput}
use crawler_lite.Spider.Repo
use crawler_lite.Spider.Source.{Synced}
use crawler_lite.Spider.Repo.{Tables, or_main}

-- SourceSyncer, over a state `S`.
pub record SourceSyncer (S : Type 0) : Type 0 where
  pub sync : Spider → S → Result Synced × S

pub record World (S : Type 0) : Type 0 where
  pub db : Store Tables
  pub now : Time
  pub source : S

abbrev pub or_empty : Option Fields → Fields
or_empty none = end
or_empty (some c) = c

abbrev pub or_active : Option SpiderStatus → SpiderStatus
or_active none = active
or_active (some s) = s

-- The defaults of Create and of Update.
abbrev pub defaulted : CreateInput → CreateInput
defaulted i = record i {
  project_id = if i.project_id == 0 then 1 else i.project_id;
  git_branch = or_main i.git_branch;
}

abbrev pub with_branch : UpdateInput → UpdateInput
with_branch i = record i { git_branch = or_main i.git_branch }

unfoldable pub create : Time → CreateInput → Store Tables → Result Spider × Store Tables
unfolding Repo.create
create now i db =
    if is_empty i.name || is_empty i.entry_module
    then (err invalid_input, db)
    else Repo.create now (defaulted i) (or_empty i.config) db

unfoldable pub change : Time → ℕ → UpdateInput → Store Tables → Result Spider × Store Tables
unfolding Repo.update
change now id i db = Repo.update now id (with_branch i) (or_active i.status) (or_empty i.config) db

module _ {S : Type 0} where
  -- Sync behind MarkSynced.
  unfoldable pub marked : ℕ → Result (Unit {0}) × Store Tables → World S → Result Spider × World S
  unfolding Repo.get
  marked id (err e, db) w = (err e, record w { db = db })
  marked id (ok _, db) w = let (r, db') = Repo.get id db in (r, record w { db = db' })

  -- Sync behind the syncer. The outcome of MarkSyncFailed is dropped.
  unfoldable pub finish : ℕ → Result Synced → World S → Result Spider × World S
  unfolding marked Repo.mark_synced Repo.mark_sync_failed
  finish id (err e) w =
      (err e, record w { db = (Repo.mark_sync_failed w.now id (error_text e) w.db).1 })
  finish id (ok s) w = marked id (Repo.mark_synced w.now id s.key s.commit s.version w.db) w

  -- Sync behind the lookup.
  unfoldable pub sync_found : SourceSyncer S → ℕ → Result Spider → World S → Result Spider × World S
  unfolding finish
  sync_found syncer id (err e) w = (err e, w)
  sync_found syncer id (ok sp) w =
      let (r, source) = syncer.sync sp w.source in
      if is_empty sp.git_url
      then (err no_git_url, w)
      else finish id r (record w { source = source })

  unfoldable pub sync : SourceSyncer S → ℕ → World S → Result Spider × World S
  unfolding sync_found Repo.get
  sync syncer id w = let (r, db) = Repo.get id w.db in sync_found syncer id r (record w { db = db })
