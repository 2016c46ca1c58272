-- ===== src/Spider/Repo.antt =====
-- internal/repository/spiders.go: statements on the table of spiders.
use crawler_lite.Prelude.Base.{
  ℕ, suc, ◌==◌, ◌&&◌, not, Bool, true, false, Option, none, some, List, [], ◌∷◌, ◌++◌, keep, map,
  if◌then◌else◌,
}
use crawler_lite.Prelude.Int.{ℤ, pos}
use crawler_lite.Prelude.Text.{Str, codes, is_empty}
use crawler_lite.Prelude.Json.{Fields}
use crawler_lite.Result.{Result, ok}
use crawler_lite.Store.{Store, statement, or_not_found}
use crawler_lite.Spider.Model.{Time, Spider, SpiderStatus, active, CreateInput, UpdateInput}

-- The columns are one spider, with whether deleted_at is set. An empty text stands for a null column.
pub record Row : Type 0 where
  pub spider : Spider
  pub is_deleted : Bool

pub record Tables : Type 0 where
  pub rows : List Row
  pub next_id : ℕ

abbrev pub is_live : ℕ → Row → Bool
is_live id r = r.spider.id == id && not r.is_deleted

abbrev pub find_row : ℕ → List Row → Option Spider
find_row id [] = none
find_row id (r ∷ rs) = if is_live id r then some r.spider else find_row id rs

abbrev pub live_spiders : List Row → List Spider
live_spiders rows = map (λ (r : Row). r.spider) (keep (λ r. not r.is_deleted) rows)

-- `by_name` is the database's order of names.
unfoldable pub list :
    (List Spider → List Spider) → Store Tables → Result (List Spider) × Store Tables
unfolding statement
list by_name = statement (λ t. (ok (by_name (live_spiders t.rows)), t))

unfoldable pub get : ℕ → Store Tables → Result Spider × Store Tables
unfolding statement
get id = statement (λ t. (or_not_found (find_row id t.rows), t))

abbrev pub or_main : Str → Str
or_main branch = if is_empty branch then codes "main" else branch

abbrev pub new_spider : ℕ → Time → CreateInput → Fields → Spider
new_spider id now i config = record {
  id = id;
  project_id = i.project_id;
  name = i.name;
  description = i.description;
  status = active;
  entry_module = i.entry_module;
  source_key = [];
  source_version = pos 0;
  config = config;
  created_at = now;
  updated_at = now;
  git_url = i.git_url;
  git_branch = or_main i.git_branch;
  last_synced_at = none;
  last_sync_commit = [];
  last_sync_error = [];
}

abbrev pub insert_row : Time → CreateInput → Fields → Tables → Result Spider × Tables
insert_row now i config t =
    let s = new_spider t.next_id now i config in
    (
      ok s,
      record {
        rows = t.rows ++ (record { spider = s; is_deleted = false } ∷ []);
        next_id = suc t.next_id;
      },
    )

unfoldable pub create : Time → CreateInput → Fields → Store Tables → Result Spider × Store Tables
unfolding statement
create now i config = statement (insert_row now i config)

-- The rows that a WHERE clause names, changed.
abbrev pub update_rows : (Row → Bool) → (Row → Row) → List Row → List Row
update_rows p f [] = []
update_rows p f (r ∷ rs) = (if p r then f r else r) ∷ update_rows p f rs

abbrev pub changed : Time → UpdateInput → SpiderStatus → Fields → Row → Row
changed now i status config r = record r {
  spider = record r.spider {
    name = i.name;
    description = i.description;
    entry_module = i.entry_module;
    config = config;
    status = status;
    git_url = i.git_url;
    git_branch = or_main i.git_branch;
    updated_at = now;
  };
}

abbrev pub change_row : ℕ → (Row → Row) → Tables → Result Spider × Tables
change_row id f t =
    let rows = update_rows (is_live id) f t.rows in
    (or_not_found (find_row id rows), record t { rows = rows })

unfoldable pub update :
    Time → ℕ → UpdateInput → SpiderStatus → Fields → Store Tables → Result Spider × Store Tables
unfolding statement
update now id i status config = statement (change_row id (changed now i status config))

abbrev pub has_id : ℕ → Row → Bool
has_id id r = r.spider.id == id

abbrev pub write_row : ℕ → (Row → Row) → Tables → Result (Unit {0}) × Tables
write_row id f t = (ok tt, record t { rows = update_rows (has_id id) f t.rows })

abbrev pub deleted : Row → Row
deleted r = record r { is_deleted = true }

unfoldable pub soft_delete : ℕ → Store Tables → Result (Unit {0}) × Store Tables
unfolding statement
soft_delete id = statement (write_row id deleted)

abbrev pub synced : Time → Str → Str → ℤ → Row → Row
synced now key commit version r = record r {
  spider = record r.spider {
    source_key = key;
    source_version = version;
    last_synced_at = some now;
    last_sync_commit = commit;
    last_sync_error = [];
    updated_at = now;
  };
}

unfoldable pub mark_synced :
    Time → ℕ → Str → Str → ℤ → Store Tables → Result (Unit {0}) × Store Tables
unfolding statement
mark_synced now id key commit version = statement (write_row id (synced now key commit version))

abbrev pub sync_failed : Time → Str → Row → Row
sync_failed now message r = record r {
  spider = record r.spider { last_sync_error = message; updated_at = now };
}

unfoldable pub mark_sync_failed : Time → ℕ → Str → Store Tables → Result (Unit {0}) × Store Tables
unfolding statement
mark_sync_failed now id message = statement (write_row id (sync_failed now message))
