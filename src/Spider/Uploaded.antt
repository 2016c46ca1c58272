-- ===== src/Spider/Uploaded.antt =====
-- internal/spider/service.go with internal/gitsource/syncer.go: the sources that the spiders name.
use crawler_lite.Api.Reply.{Reply, path_int64}
use crawler_lite.Spider.Repo.{
  or_main, Row, Tables, update_rows, insert_row, new_spider, change_row, changed, write_row,
  deleted, synced, sync_failed, has_id, is_live, list, get, soft_delete, find_row, live_spiders,
}
use crawler_lite.Spider.Service.{
  or_empty, defaulted, or_active, with_branch, World, SourceSyncer, create, change, sync,
  sync_found, finish, marked,
}
use crawler_lite.Result.{invalid_input, no_git_url, Error, Result, ok, err, error_text}
use crawler_lite.Spider.Model.{Time, Spider, CreateInput, UpdateInput}
use crawler_lite.Prelude.Int.{pos, ◌+ℤ◌, wrap32, ℤ}
use crawler_lite.Prelude.Base.{
  either_branch, ◌≡◌, refl, ap, ◌∙◌, inl, inr, ℕ, ◌||◌, Bool, Option, none, some, List, [], ◌∷◌,
  All, All-append, Bool-cases,
}
use crawler_lite.Prelude.Text.{Str, is_empty, str_eq, str_eq_refl}
use crawler_lite.Store.{Store, statement, statement_cases, statement_keeps, or_not_found}
use crawler_lite.Spider.Repo
use crawler_lite.Spider.Source.{
  Git, Archive, Bucket, Synced, find_object, sync_source, upload, upload_zip, with_head, with_clone,
  with_temp, source_key, Checkout, Nodes,
}
use crawler_lite.Spider.Handlers.{
  CreateReq, create_input, on_list, on_get, on_create, on_update, on_delete, on_sync, with_id,
}

-- The service over the git syncer.
abbrev pub git_syncer : Git → SourceSyncer (Store Bucket)
git_syncer g = record { sync = sync_source g }

pub data Call : Type 0 where
  lists : Call
  gets deletes syncs : Option ℤ → Call
  creates : Option CreateReq → Call
  updates : Option ℤ → Option UpdateInput → Call

-- One call, each with what git and the file system answer by then.
unfoldable pub step :
    (List Spider → List Spider) → Git × Call → World (Store Bucket) → World (Store Bucket)
unfolding on_list on_get on_create on_update on_delete on_sync
step by_name (g, lists) w = (on_list by_name w).1
step by_name (g, gets param) w = (on_get param w).1
step by_name (g, deletes param) w = (on_delete param w).1
step by_name (g, syncs param) w = (on_sync (git_syncer g) param w).1
step by_name (g, creates req) w = (on_create req w).1
step by_name (g, updates param req) w = (on_update param req w).1

unfoldable pub run :
    (List Spider → List Spider) → List (Git × Call) → World (Store Bucket) → World (Store Bucket)
unfolding step
run by_name [] w = w
run by_name (k ∷ ks) w = run by_name ks (step by_name k w)

-- A row that names a source names an object of the bucket.
pub data HasSource (b : Bucket) (r : Row) : Type 0 where
  unsynced : r.spider.source_key ≡ [] → HasSource b r
  stored : (a : Archive) → find_object r.spider.source_key b ≡ some a → HasSource b r

put-HasSource :
    (b : Bucket) (key : Str) (zipped : Archive) (r : Row)
    → HasSource b r
    → HasSource ((key, zipped) ∷ b) r
put-HasSource b key zipped r (unsynced e) = unsynced e
put-HasSource b key zipped r (stored a e) = elim (Bool-cases (str_eq key r.spider.source_key)) [
  | inl q ↦ stored zipped (rw q refl)
  | inr q ↦ stored a (rw q e)
]

put-All :
    (b : Bucket) (key : Str) (zipped : Archive) (rows : List Row)
    → All (HasSource b) rows
    → All (HasSource ((key, zipped) ∷ b)) rows
put-All b key zipped [] h = tt
put-All b key zipped (r ∷ rs) (h, hs) = (put-HasSource b key zipped r h, put-All b key zipped rs hs)

update_rows-All :
    (P : Row → Type 0) (p : Row → Bool) (f : Row → Row) (rows : List Row)
    → ((r : Row) → P r → P (f r))
    → All P rows
    → All P (update_rows p f rows)
update_rows-All P p f [] k h = tt
update_rows-All P p f (r ∷ rs) k (h, hs) =
    (either_branch P (p r) (f r) r (k r h) h, update_rows-All P p f rs k hs)

-- A change of a row that keeps its source.
same_source :
    (b : Bucket) (r s : Row)
    → s.spider.source_key ≡ r.spider.source_key
    → HasSource b r
    → HasSource b s
same_source b r s e (unsynced q) = unsynced (e ∙ q)
same_source b r s e (stored a q) = stored a (ap (λ k. find_object k b) e ∙ q)

abbrev Sourced : Bucket → Tables → Type 0
Sourced b t = All (HasSource b) t.rows

-- What a synchronisation of the source comes to: an error and the bucket as it was, or the next version
-- under its key, in front of the bucket.
abbrev pub next : Spider → Str → Synced
next sp commit =
    let version = wrap32 (sp.source_version +ℤ pos 1) in
    record { key = source_key sp.id version; commit = commit; version = version }

pub data Sources (sp : Spider) (b : Bucket) : Result Synced × Store Bucket → Type 0 where
  fails :
      (e : Error) (l : List (Option Str)) → Sources sp b (err e, record { tables = b; faults = l })
  uploads :
      (commit : Str) (zipped : Archive) (l : List (Option Str))
      → Sources sp b
          (ok (next sp commit), record { tables = ((next sp commit).key, zipped) ∷ b; faults = l })

zip-Sources :
    (sp : Spider) (commit : Str) (z : Result Archive) (b : Store Bucket)
    → Sources sp b.tables (upload_zip sp commit z b)
unfolding upload_zip upload
zip-Sources sp commit (err e) b = fails _ b.faults
zip-Sources sp commit (ok zipped) b =
    let version = wrap32 (sp.source_version +ℤ pos 1) in
    elim (statement_cases
      (λ (objects : Bucket). (ok (tt {0}), (source_key sp.id version, zipped) ∷ objects)) b) [
        | inl (m, l, q) ↦ rw q (fails _ l)
        | inr (l, q) ↦ rw q (uploads commit zipped l)
      ]

head-Sources :
    (sp : Spider) (head : Result Str) (nodes : Nodes) (b : Store Bucket)
    → Sources sp b.tables (with_head sp head nodes b)
unfolding with_head
head-Sources sp (err e) nodes b = fails _ b.faults
head-Sources sp (ok commit) nodes b = zip-Sources sp commit _ b

clone-Sources :
    (sp : Spider) (c : Result Checkout) (b : Store Bucket) → Sources sp b.tables (with_clone sp c b)
unfolding with_clone
clone-Sources sp (err e) b = fails _ b.faults
clone-Sources sp (ok c) b = head-Sources sp c.head c.nodes b

temp-Sources :
    (g : Git) (sp : Spider) (t : Result (Unit {0})) (b : Store Bucket)
    → Sources sp b.tables (with_temp g sp t b)
unfolding with_temp
temp-Sources g sp (err e) b = fails _ b.faults
temp-Sources g sp (ok _) b = clone-Sources sp (g.clone sp.git_url (or_main sp.git_branch)) b

pub sync_source-Sources :
    (g : Git) (sp : Spider) (b : Store Bucket) → Sources sp b.tables (sync_source g sp b)
unfolding sync_source
sync_source-Sources g sp b =
    either_branch (Sources sp b.tables) (is_empty sp.git_url) _ (with_temp g sp g.mkdir_temp b)
      (fails _ b.faults) (temp-Sources g sp g.mkdir_temp b)

module _ (b : Bucket) where
  create-Sourced :
      (now : Time) (i : CreateInput) (db : Store Tables)
      → Sourced b db.tables
      → Sourced b (create now i db).1.tables
  unfolding create Repo.create
  create-Sourced now i db h =
      either_branch (λ (r : Result Spider × Store Tables). Sourced b r.1.tables)
        (is_empty i.name || is_empty i.entry_module) (err invalid_input, db) _ h
        (statement_keeps (Sourced b) (insert_row now (defaulted i) (or_empty i.config)) db h
          (All-append (HasSource b) db.tables.rows _ h (unsynced refl, tt)))

  change-Sourced :
      (now : Time) (id : ℕ) (i : UpdateInput) (db : Store Tables)
      → Sourced b db.tables
      → Sourced b (change now id i db).1.tables
  unfolding change Repo.update
  change-Sourced now id i db h =
      let f = changed now (with_branch i) (or_active i.status) (or_empty i.config) in
      statement_keeps (Sourced b) (change_row id f) db h (
        update_rows-All (HasSource b) (is_live id) f db.tables.rows
          (λ r k. same_source b r (f r) refl k) h)

  write-Sourced :
      (id : ℕ) (f : Row → Row) (db : Store Tables)
      → ((r : Row) → HasSource b r → HasSource b (f r))
      → Sourced b db.tables
      → Sourced b (statement (write_row id f) db).1.tables
  write-Sourced id f db k h =
      statement_keeps (Sourced b) (write_row id f) db h
        (update_rows-All (HasSource b) (has_id id) f db.tables.rows k h)

abbrev pub SourcedWorld : World (Store Bucket) → Type 0
SourcedWorld w = Sourced w.source.tables w.db.tables

get-Sourced :
    (b : Bucket) (id : ℕ) (db : Store Tables) → Sourced b db.tables → Sourced b (get id db).1.tables
unfolding get
get-Sourced b id db h =
    statement_keeps (Sourced b) (λ t. (or_not_found (find_row id t.rows), t)) db h h

marked-SourcedWorld :
    (id : ℕ) (r : Result (Unit {0}) × Store Tables) (w : World (Store Bucket))
    → Sourced w.source.tables r.1.tables
    → SourcedWorld (marked id r w).1
unfolding marked
marked-SourcedWorld id (err e, db) w h = h
marked-SourcedWorld id (ok _, db) w h = get-Sourced w.source.tables id db h

sync_found-SourcedWorld :
    (g : Git) (id : ℕ) (r : Result Spider) (w : World (Store Bucket))
    → SourcedWorld w
    → SourcedWorld (sync_found (git_syncer g) id r w).1
unfolding sync_found finish Repo.mark_synced Repo.mark_sync_failed
sync_found-SourcedWorld g id (err e) w h = h
sync_found-SourcedWorld g id (ok sp) w h =
    either_branch (λ (r : Result Spider × World (Store Bucket)). SourcedWorld r.1)
      (is_empty sp.git_url) (err no_git_url, w) _ h
      (finished (sync_source g sp w.source) (sync_source-Sources g sp w.source))
  where
    finished :
        (r : Result Synced × Store Bucket)
        → Sources sp w.source.tables r
        → SourcedWorld (finish id r.0 (record w { source = r.1 })).1
    finished _ (fails e l) =
        write-Sourced w.source.tables id (sync_failed w.now (error_text e)) w.db
          (λ r k. same_source w.source.tables r (sync_failed w.now (error_text e) r) refl k) h
    finished _ (uploads commit zipped l) =
        let s = next sp commit in
        let f = synced w.now s.key commit s.version in
        let bucket = (s.key, zipped) ∷ w.source.tables in
        marked-SourcedWorld id (statement (write_row id f) w.db)
          (record w { source = record { tables = bucket; faults = l } })
          (write-Sourced bucket id f w.db (λ r k. stored zipped (rw (str_eq_refl s.key) refl))
            (put-All w.source.tables s.key zipped w.db.tables.rows h))

with_id-SourcedWorld :
    {A : Type 0} (o : Option ℕ) (next : ℕ → Reply A × World (Store Bucket))
    (w : World (Store Bucket))
    → SourcedWorld w
    → ((id : ℕ) → SourcedWorld (next id).1)
    → SourcedWorld (with_id o next w).1
with_id-SourcedWorld none next w h k = h
with_id-SourcedWorld (some id) next w h k = k id

step-SourcedWorld :
    (by_name : List Spider → List Spider) (g : Git) (k : Call) (w : World (Store Bucket))
    → SourcedWorld w
    → SourcedWorld (step by_name (g, k) w)
unfolding step on_list on_get on_create on_update on_delete on_sync sync list soft_delete
step-SourcedWorld by_name g lists w h =
    statement_keeps (Sourced w.source.tables) (λ t. (ok (by_name (live_spiders t.rows)), t)) w.db h
      h
step-SourcedWorld by_name g (gets param) w h =
    with_id-SourcedWorld (path_int64 param) _ w h (λ id. get-Sourced w.source.tables id w.db h)
step-SourcedWorld by_name g (deletes param) w h =
    with_id-SourcedWorld (path_int64 param) _ w h (λ id.
      write-Sourced w.source.tables id deleted w.db
        (λ r k. same_source w.source.tables r (deleted r) refl k) h)
step-SourcedWorld by_name g (syncs param) w h = with_id-SourcedWorld (path_int64 param) _ w h (λ id.
    sync_found-SourcedWorld g id (get id w.db).0 (record w { db = (get id w.db).1 })
      (get-Sourced w.source.tables id w.db h))
step-SourcedWorld by_name g (creates none) w h = h
step-SourcedWorld by_name g (creates (some q)) w h =
    create-Sourced w.source.tables w.now (create_input q) w.db h
step-SourcedWorld by_name g (updates param none) w h =
    with_id-SourcedWorld (path_int64 param) _ w h (λ id. h)
step-SourcedWorld by_name g (updates param (some i)) w h =
    with_id-SourcedWorld (path_int64 param) _ w h
      (λ id. change-Sourced w.source.tables w.now id i w.db h)

-- Over every sequence of requests to the spider endpoints, whatever git and the file system answer and
-- whatever statements and uploads fail: a row that names a source, a deleted row included, names an
-- object of the bucket.
pub run-HasSource :
    (by_name : List Spider → List Spider) (ks : List (Git × Call)) (w : World (Store Bucket))
    → All (HasSource w.source.tables) w.db.tables.rows
    → All (HasSource (run by_name ks w).source.tables) (run by_name ks w).db.tables.rows
unfolding run
run-HasSource by_name [] w h = h
run-HasSource by_name ((g, k) ∷ ks) w h =
    run-HasSource by_name ks (step by_name (g, k) w) (step-SourcedWorld by_name g k w h)
