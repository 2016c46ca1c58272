-- ===== src/Spider/Syncing.antt =====
-- internal/spider/service.go, Sync: what it answers and what it leaves, failure by failure.
use crawler_lite.Prelude.Base.{◌≡◌, ◌⊎◌, ℕ, true, Option, List, ◌∷◌}
use crawler_lite.Prelude.Text.{Str, is_empty}
use crawler_lite.Result.{Error, Result, ok, err, error_text, db_error, no_git_url}
use crawler_lite.Store.{Store, or_not_found}
use crawler_lite.Spider.Model.{Spider}
use crawler_lite.Spider.Repo.{Row, update_rows, synced, sync_failed, has_id, find_row, get}
use crawler_lite.Spider.Repo
use crawler_lite.Spider.Source.{Git, Archive, Bucket, sync_source}
use crawler_lite.Spider.Service.{World}
use crawler_lite.Spider.Uploaded.{next}

-- The answer is the row as it is stored in the end, or the last lookup's failure.
abbrev pub Answers : ℕ → Result Spider × World (Store Bucket) → Type 0
Answers id r =
    (r.0 ≡ or_not_found (find_row id r.1.db.tables.rows)) ⊎ ((m : Str) × (r.0 ≡ err (db_error m)))

-- What a synchronisation of `w` that answers and leaves `r` comes to.
pub data Syncs (g : Git) (id : ℕ) (w : World (Store Bucket))
    (r : Result Spider × World (Store Bucket)) : Type 0 where
  -- the lookup fails, and its error is the answer
  unknown :
      (e : Error)
      → (get id w.db).0 ≡ err e
      → r.0 ≡ err e
      → r.1.db.tables ≡ w.db.tables
      → r.1.source ≡ w.source
      → Syncs g id w r
  no_url :
      (sp : Spider)
      → (get id w.db).0 ≡ ok sp
      → is_empty sp.git_url ≡ true
      → r.0 ≡ err no_git_url
      → r.1.db.tables ≡ w.db.tables
      → r.1.source ≡ w.source
      → Syncs g id w r
  -- the clone, the archive or the upload fails, and the message is recorded unless that fails too
  source_fails :
      (sp : Spider) (e : Error)
      → (get id w.db).0 ≡ ok sp
      → (sync_source g sp w.source).0 ≡ err e
      → r.0 ≡ err e
      → r.1.source.tables ≡ w.source.tables
      → (r.1.db.tables ≡ w.db.tables)
        ⊎ (r.1.db.tables.rows
            ≡ update_rows (has_id id) (sync_failed w.now (error_text e)) w.db.tables.rows)
      → Syncs g id w r
  -- the archive lies under the next version's key, and the row names it unless that statement fails
  source_stored :
      (sp : Spider) (commit : Str) (zipped : Archive)
      → (get id w.db).0 ≡ ok sp
      → (sync_source g sp w.source).0 ≡ ok (next sp commit)
      → r.1.source.tables ≡ ((next sp commit).key, zipped) ∷ w.source.tables
      → ((m : Str) × (r.0 ≡ err (db_error m)) × (r.1.db.tables ≡ w.db.tables))
        ⊎ ((r.1.db.tables.rows
              ≡ update_rows
                  (has_id id)
                  (synced w.now (next sp commit).key commit (next sp commit).version)
                  w.db.tables.rows)
            × Answers id r)
      → Syncs g id w r

module _ (g : Git) (id : ℕ) (w : World (Store Bucket)) (l : List (Option Str)) where
  -- The world behind the lookup.
  abbrev looked : World (Store Bucket)
  looked = record w { db = record w.db { faults = l } }
