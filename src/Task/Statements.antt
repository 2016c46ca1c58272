-- ===== src/Task/Statements.antt =====
-- What each statement of the repository does to the tables, on success and on failure.
use crawler_lite.Prelude.Base.{
  ℕ, suc, ◌≡◌, refl, ◌∙◌, ◌⊎◌, inl, inr, Option, none, some, List, [], ◌∷◌, ◌++◌, arith,
}
use crawler_lite.Prelude.Text.{Str}
use crawler_lite.Result.{Error, db_error, Result, ok, err}
use crawler_lite.Spider.Model.{Time, Spider}
use crawler_lite.Task.Model.{Status, Task, CreateInput, Db}
use crawler_lite.Task.Repo.{
  list_queued, statement, find_task, find_spider, get, get_spider, new_row, create, with_status,
  update_row, set_status,
}

-- The tables are as before; only the outcomes to come may have moved on.
pub record SameTables (db db' : Db) : Type 0 where
  pub tasks : db'.tasks ≡ db.tasks
  pub next_id : db'.next_id ≡ db.next_id
  pub spiders : db'.spiders ≡ db.spiders

pub faults_cases :
    (l : List (Option Str))
    → (l ≡ [])
      ⊎ ((rest : List (Option Str)) × (l ≡ none ∷ rest))
      ⊎ ((message : Str) × (rest : List (Option Str)) × (l ≡ some message ∷ rest))
faults_cases [] = inl refl
faults_cases (none ∷ rest) = inr (inl (rest, refl))
faults_cases (some message ∷ rest) = inr (inr (message, rest, refl))

-- A statement fails before it touches the tables, or runs on them.
pub statement_cases :
    {A : Type 0} (body : Db → Result A × Db) (db : Db)
    → ((e : Error) × (db' : Db) × SameTables db db' × (statement body db ≡ (err e, db')))
      ⊎ ((db' : Db) × SameTables db db' × (statement body db ≡ body db'))
unfolding statement
statement_cases body db = elim (faults_cases db.faults) [
  | inl e ↦ inr (
    record db { faults = [] },
    record { tasks = refl; next_id = refl; spiders = refl },
    rw (e, statement),
  )
  | inr (inl (rest, e)) ↦ inr (
    record db { faults = rest },
    record { tasks = refl; next_id = refl; spiders = refl },
    rw (e, statement),
  )
  | inr (inr (message, rest, e)) ↦ inl (
    db_error message,
    record db { faults = rest },
    record { tasks = refl; next_id = refl; spiders = refl },
    rw (e, statement),
  )
]

pub SameTables-trans : {a b c : Db} → SameTables a b → SameTables b c → SameTables a c
SameTables-trans s t = record {
  tasks = t.tasks ∙ s.tasks;
  next_id = t.next_id ∙ s.next_id;
  spiders = t.spiders ∙ s.spiders;
}

-- A lookup that succeeds has found the row, and no lookup writes.
pub get-SameTables : (id : ℕ) (db : Db) → SameTables db (get id db).1
unfolding get
get-SameTables id db = ground arith

pub get_spider-SameTables : (id : ℕ) (db : Db) → SameTables db (get_spider id db).1
unfolding get_spider
get_spider-SameTables id db = ground arith

pub get_ok : (id : ℕ) (db : Db) (t : Task) → (get id db).0 ≡ ok t → find_task id db.tasks ≡ some t
unfolding get
get_ok id db t e = ground arith

pub get_spider_ok :
    (id : ℕ) (db : Db) (s : Spider)
    → (get_spider id db).0 ≡ ok s
    → find_spider id db.spiders ≡ some s
unfolding get_spider
get_spider_ok id db s e = ground arith

-- INSERT either fails and leaves the tables, or appends the row under the next id.
pub create_cases :
    (now : Time) (i : CreateInput) (db : Db)
    → ((e : Error) × ((create now i db).0 ≡ err e) × SameTables db (create now i db).1)
      ⊎ (((create now i db).0 ≡ ok (new_row db.next_id now i))
          × ((create now i db).1.tasks ≡ db.tasks ++ (new_row db.next_id now i ∷ []))
          × ((create now i db).1.next_id ≡ suc db.next_id)
          × ((create now i db).1.spiders ≡ db.spiders))
unfolding create
create_cases now i db =
    elim (statement_cases
      (λ db. (
        ok (new_row db.next_id now i),
        record db { tasks = db.tasks ++ (new_row db.next_id now i ∷ []); next_id = suc db.next_id },
      ))
      db) [ inl (e, db', same, q) ↦ ground arith | inr (db', same, q) ↦ ground arith ]

-- UPDATE either fails and leaves the tables, or rewrites the rows with that id.
pub set_status_cases :
    (now : Time) (id : ℕ) (s : Status) (message class worker : Str) (db : Db)
    → let r = set_status now id s message class worker db in
      ((e : Error) × (r.0 ≡ err e) × SameTables db r.1)
      ⊎ ((r.0 ≡ ok tt)
          × (r.1.tasks ≡ update_row id (with_status now s message class worker) db.tasks)
          × (r.1.next_id ≡ db.next_id)
          × (r.1.spiders ≡ db.spiders))
unfolding set_status
set_status_cases now id s message class worker db =
    elim (statement_cases
      (λ db. (
        ok tt,
        record db { tasks = update_row id (with_status now s message class worker) db.tasks },
      ))
      db) [ inl (e, db', same, q) ↦ ground arith | inr (db', same, q) ↦ ground arith ]

pub list_queued-SameTables : (now : Time) (db : Db) → SameTables db (list_queued now db).1
unfolding list_queued
list_queued-SameTables now db = ground arith
