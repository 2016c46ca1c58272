-- ===== src/Schedule/Rows.antt =====
-- What the statements of internal/repository/schedules.go keep of the rows, and the cases of Reload.
use crawler_lite.Result.{db_error, Error, ok, err}
use crawler_lite.Schedule.Runner.{listed, World, reload, reload_rows, refresh, refresh_row}
use crawler_lite.Prelude.Base.{
  ap, ◌≡◌, ◌⊎◌, inl, inr, ℕ, ◌==◌, Bool, Option, some, List, [], ◌∷◌, keep, All, Bool-cases,
  Option-cases,
}
use crawler_lite.Prelude.Text.{Str}
use crawler_lite.Store.{Store, statement_cases, statement_keeps}
use crawler_lite.Spider.Model.{Time}
use crawler_lite.Schedule.Model.{Schedule, Tables, Cron}
use crawler_lite.Schedule.Repo.{
  update_rows, mark_row, list_enabled, enabled_rows, update_next_run, with_next,
}

pub keep-All :
    {A : Type 0} (P : A → Type 0) (p : A → Bool) (xs : List A) → All P xs → All P (keep p xs)
keep-All P p [] h = tt
keep-All P p (x ∷ xs) (h, hs) = elim (Bool-cases (p x)) [
  | inl e ↦ rw e (h, keep-All P p xs hs)
  | inr e ↦ rw e (keep-All P p xs hs)
]

pub update_rows-All :
    (P : Schedule → Type 0) (id : ℕ) (f : Schedule → Schedule) (rows : List Schedule)
    → ((s : Schedule) → P s → P (f s))
    → All P rows
    → All P (update_rows id f rows)
update_rows-All P id f [] k h = tt
update_rows-All P id f (s ∷ ss) k (h, hs) = elim (Bool-cases (s.id == id)) [
  | inl e ↦ rw e (k s h, update_rows-All P id f ss k hs)
  | inr e ↦ rw e (h, update_rows-All P id f ss k hs)
]

-- What holds of the rows whatever their next run is holds after the refresh.
module _ (P : Schedule → Type 0)
    (k : (next : Option Time) (s : Schedule) → P s → P (with_next next s)) where
  refresh_row_keeps :
      (c : Cron) (now : Time) (s : Schedule) (db : Store Tables)
      → All P db.tables.schedules
      → All P (refresh_row c now s db).tables.schedules
  unfolding update_next_run
  refresh_row_keeps c now s db h = elim (Option-cases (c.parse s.cron_expr)) [
    | inl e ↦ rw (e, refresh_row) h
    | inr (next, e) ↦
        rw (e, refresh_row)
          (statement_keeps (λ t. All P t.schedules) (mark_row s.id (with_next (some (next now)))) db
            h
            (update_rows-All P s.id (with_next (some (next now))) db.tables.schedules
              (k (some (next now))) h))
  ]

  pub refresh_keeps :
      (c : Cron) (now : Time) (ss : List Schedule) (db : Store Tables)
      → All P db.tables.schedules
      → All P (refresh c now ss db).tables.schedules
  unfolding refresh
  refresh_keeps c now [] db h = h
  refresh_keeps c now (s ∷ ss) db h =
      refresh_keeps c now ss (refresh_row c now s db) (refresh_row_keeps c now s db h)

-- Reload fails with its query, or registers the enabled rows.
pub reload_cases :
    {Q : Type 0} (c : Cron) (w : World Q)
    → ((e : Error) × (l : List (Option Str)) × (reload c w
          ≡ (err e, record w { db = record w.db { faults = l } })))
      ⊎ ((l : List (Option Str)) × (reload c w ≡ (
        ok tt,
        reload_rows c
            (enabled_rows w.db.tables.schedules)
            (record w { db = record w.db { faults = l } }),
      )))
unfolding reload list_enabled
reload_cases c w = elim (statement_cases (λ t. (ok (enabled_rows t.schedules), t)) w.db) [
  | inl (e, l, q) ↦ inl (db_error e, l, ap (listed c w) q)
  | inr (l, q) ↦ inr (l, ap (listed c w) q)
]
