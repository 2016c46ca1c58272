-- ===== src/Store.antt =====
-- Statements against a database, as package internal/repository makes them through pgx: a state of
-- tables and a schedule of the outcomes to come.
use crawler_lite.Prelude.Base.{
  ◌≡◌, refl, sym, ap, ◌∙◌, ◌⊎◌, inl, inr, Option, none, some, List, [], ◌∷◌,
}
use crawler_lite.Prelude.Text.{Str}
use crawler_lite.Result.{db_error, not_found, Result, ok, err}

-- In `faults`, `some` is a statement that fails with that message, and past the end of the list every
-- statement succeeds.
pub record Store (S : Type 0) : Type 0 where
  pub tables : S
  pub faults : List (Option Str)

-- A statement fails where the next outcome says so, and leaves the tables then.
unfoldable pub statement : {S A : Type 0} → (S → Result A × S) → Store S → Result A × Store S
statement body db = elim db.faults [
  | [] ↦ ((body db.tables).0, record { tables = (body db.tables).1; faults = [] })
  | none ∷ rest ↦ ((body db.tables).0, record { tables = (body db.tables).1; faults = rest })
  | some message ∷ rest ↦ (err (db_error message), record db { faults = rest })
]

-- No row: pgx.ErrNoRows becomes ErrNotFound.
abbrev pub or_not_found {ℓ} : {A : Type ℓ} → Option A → Result A
or_not_found none = err not_found
or_not_found (some a) = ok a

faults_cases :
    (l : List (Option Str))
    → (l ≡ [])
      ⊎ ((rest : List (Option Str)) × (l ≡ none ∷ rest))
      ⊎ ((message : Str) × (rest : List (Option Str)) × (l ≡ some message ∷ rest))
faults_cases [] = inl refl
faults_cases (none ∷ rest) = inr (inl (rest, refl))
faults_cases (some message ∷ rest) = inr (inr (message, rest, refl))

-- A statement fails before it touches the tables, or runs on them.
pub statement_cases :
    {S A : Type 0} (body : S → Result A × S) (db : Store S)
    → ((message : Str) × (l : List (Option Str)) × (statement body db
          ≡ (err (db_error message), record db { faults = l })))
      ⊎ ((l : List (Option Str)) × (statement body db
            ≡ ((body db.tables).0, record { tables = (body db.tables).1; faults = l })))
unfolding statement
statement_cases body db = elim (faults_cases db.faults) [
  | inl e ↦ inr ([], rw (e, statement))
  | inr (inl (rest, e)) ↦ inr (rest, rw (e, statement))
  | inr (inr (message, rest, e)) ↦ inl (message, rest, rw (e, statement))
]

-- What holds of the tables before a statement, and after its body, holds after the statement.
pub statement_keeps :
    {S A : Type 0} (P : S → Type 0) (body : S → Result A × S) (db : Store S)
    → P db.tables
    → P (body db.tables).1
    → P (statement body db).1.tables
statement_keeps P body db h k = elim (statement_cases body db) [
  | inl (e, l, q) ↦ rw q h
  | inr (l, q) ↦ rw q k
]

-- A statement that answers has run its body.
pub statement_ok :
    {S A : Type 0} (body : S → Result A × S) (db : Store S) (a : A)
    → (statement body db).0 ≡ ok a
    → ((body db.tables).0 ≡ ok a) × ((statement body db).1.tables ≡ (body db.tables).1)
statement_ok body db a e = elim (statement_cases body db) [
  | inl (x, l, q) ↦ cc
  | inr (l, q) ↦ (sym (ap (λ r. r.0) q) ∙ e, ap (λ r. r.1.tables) q)
]

-- Where no fault is left, a statement runs its body, and none is left.
pub statement_calm :
    {S A : Type 0} (body : S → Result A × S) (db : Store S)
    → db.faults ≡ []
    → statement body db ≡ ((body db.tables).0, record { tables = (body db.tables).1; faults = [] })
unfolding statement
statement_calm body db e = rw e refl
