-- ===== src/Schedule/Checks.antt =====
-- The cases of the checks of internal/schedule/service.go.
use crawler_lite.Prelude.Base.{
  ◌⊎◌, true, ◌≡◌, refl, inl, inr, ℕ, ◌==◌, false, ◌||◌, All, Bool-cases, Option-cases, arith,
}
use crawler_lite.Result.{invalid_input, invalid_cron, ok, err}
use crawler_lite.Prelude.Text.{Str, Unicode}
use crawler_lite.Store.{Store}
use crawler_lite.Spider.Model.{Time}
use crawler_lite.Schedule.Model.{Schedule, CreateInput, UpdateInput, Tables, Cron}
use crawler_lite.Schedule.Repo.{
  insert_row, new_schedule, change_row, changed, delete_row, mark_row, marked, enabled_rows,
  find_schedule,
}
use crawler_lite.Schedule.Repo
use crawler_lite.Schedule.Service.{is_blank, validate_cron, create, change}

-- A stored schedule names a spider and a name, and its expression parses.
pub record IsValid (u : Unicode) (c : Cron) (s : Schedule) : Type 0 where
  pub spider : (s.spider_id == 0) ≡ false
  pub named : is_blank u s.name ≡ false
  pub parses : validate_cron u c s.cron_expr ≡ ok tt

pub validate_cron_cases :
    (u : Unicode) (c : Cron) (expr : Str)
    → (validate_cron u c expr ≡ err invalid_cron) ⊎ (validate_cron u c expr ≡ ok tt)
unfolding validate_cron
validate_cron_cases u c expr = elim (Bool-cases (is_blank u expr)) [
  | inl e ↦ inl (rw e refl)
  | inr e ↦ elim (Option-cases (c.parse expr)) [
    | inl p ↦ inl (rw (e, p) refl)
    | inr (next, p) ↦ inr (rw (e, p) refl)
  ]
]

-- Create and Update refuse their input, or run their statement on what passes the checks.
pub create_cases :
    (u : Unicode) (c : Cron) (now : Time) (i : CreateInput) (db : Store Tables)
    → (((i.spider_id == 0 || is_blank u i.name) ≡ true)
        × (create u c now i db ≡ (err invalid_input, db)))
      ⊎ ((validate_cron u c i.cron_expr ≡ err invalid_cron)
          × ((i.spider_id == 0 || is_blank u i.name) ≡ false)
          × (create u c now i db ≡ (err invalid_cron, db)))
      ⊎ (((i.spider_id == 0) ≡ false)
          × (is_blank u i.name ≡ false)
          × (validate_cron u c i.cron_expr ≡ ok tt)
          × (create u c now i db ≡ Repo.insert now i db))
unfolding create
create_cases u c now i db = elim (Bool-cases (i.spider_id == 0 || is_blank u i.name)) [
  | inl e ↦ inl (e, rw e refl)
  | inr e ↦ elim (validate_cron_cases u c i.cron_expr) [
    | inl v ↦ inr (inl (v, e, rw (e, v) refl))
    | inr v ↦ inr (inr (ground (arith, e), ground (arith, e), v, rw (e, v) refl))
  ]
]

pub change_cases :
    (u : Unicode) (c : Cron) (now : Time) (id : ℕ) (i : UpdateInput) (db : Store Tables)
    → ((is_blank u i.name ≡ true) × (change u c now id i db ≡ (err invalid_input, db)))
      ⊎ ((validate_cron u c i.cron_expr ≡ err invalid_cron)
          × (is_blank u i.name ≡ false)
          × (change u c now id i db ≡ (err invalid_cron, db)))
      ⊎ ((is_blank u i.name ≡ false)
          × (validate_cron u c i.cron_expr ≡ ok tt)
          × (change u c now id i db ≡ Repo.update now id i db))
unfolding change
change_cases u c now id i db = elim (Bool-cases (is_blank u i.name)) [
  | inl e ↦ inl (e, rw e refl)
  | inr e ↦ elim (validate_cron_cases u c i.cron_expr) [
    | inl v ↦ inr (inl (v, e, rw (e, v) refl))
    | inr v ↦ inr (inr (e, v, rw (e, v) refl))
  ]
]

abbrev pub Rows : Unicode → Cron → Tables → Type 0
Rows u c t = All (IsValid u c) t.schedules
