-- ===== src/Schedule/Steady.antt =====
-- The registrations of internal/schedule/runner.go while statements succeed, and what keeps them.
use crawler_lite.Schedule.Daemons.{held, current_daemon}
use crawler_lite.Schedule.Repo.{with_next, mark_row, find_schedule, update_next_run, update_rows}
use crawler_lite.Prelude.Base.{
  if◌then◌else◌, ◌≢◌, ◌≡◌, refl, sym, ap, ◌∙◌, ℕ, ◌==◌, Bool, true, false, Option, none, some, List,
  [], ◌∷◌,
}
use crawler_lite.Store.{statement_calm, Store}
use crawler_lite.Schedule.Model.{Tables, Cron, Schedule}
use crawler_lite.Spider.Model.{Time}
use mathlib.Core.Option.{map, none-ne-some}
use crawler_lite.Schedule.Daemon.{Entry, Daemon, Daemons, start, start_current, set_running}
use crawler_lite.Schedule.Reloading.{live, entries-set_running}
use crawler_lite.Schedule.Runner.{World, refresh, refresh_row}

-- The registrations of the daemon that the runner holds.
abbrev pub registrations : Daemons → Option (List Entry)
registrations s = map (λ (d : Daemon). d.entries) (current_daemon s)

-- No statement is going to fail, and the registrations are those that the table asks for.
pub record InSync {Q : Type 0} (c : Cron) (w : World Q) : Type 0 where
  pub calm : w.db.faults ≡ []
  pub same : registrations w.daemons ≡ some (live c w.db.tables.schedules)

pub refresh-calm :
    (c : Cron) (now : Time) (ss : List Schedule) (db : Store Tables)
    → db.faults ≡ []
    → (refresh c now ss db).faults ≡ []
unfolding refresh update_next_run
refresh-calm c now [] db e = e
refresh-calm c now (s ∷ ss) db e =
    refresh-calm c now ss (refresh_row c now s db) (row (c.parse s.cron_expr) refl)
  where
    row :
        (o : Option (Time → Time)) → c.parse s.cron_expr ≡ o → (refresh_row c now s db).faults ≡ []
    row none q = rw (q, refresh_row) e
    row (some next) q =
        rw (q, refresh_row)
          (ap (λ r. r.1.faults) (statement_calm (mark_row s.id (with_next (some (next now)))) db e))

pub miss :
    (id : ℕ) (s : Schedule) (ss : List Schedule)
    → (s.id == id) ≡ false
    → find_schedule id (s ∷ ss) ≡ none
    → find_schedule id ss ≡ none
miss id s ss q h = sym (rw q refl) ∙ h

pub hit :
    (id : ℕ) (s : Schedule) (ss : List Schedule)
    → (s.id == id) ≡ true
    → find_schedule id (s ∷ ss) ≢ none
hit id s ss q h = none-ne-some s (sym h ∙ rw q refl)

-- A row that is not there is not changed.
pub update_rows-absent :
    (id : ℕ) (f : Schedule → Schedule) (rows : List Schedule)
    → ((s : Schedule) → (f s).id ≡ s.id)
    → find_schedule id (update_rows id f rows) ≡ none
    → update_rows id f rows ≡ rows
update_rows-absent id f [] k e = refl
update_rows-absent id f (s ∷ ss) k e =
    hit_or_miss (s.id == id) refl e (update_rows-absent id f ss k)
  where
    hit_or_miss :
        (b : Bool)
        → (s.id == id) ≡ b
        → find_schedule id ((if b then f s else s) ∷ update_rows id f ss) ≡ none
        → (find_schedule id (update_rows id f ss) ≡ none → update_rows id f ss ≡ ss)
        → (if b then f s else s) ∷ update_rows id f ss ≡ s ∷ ss
    hit_or_miss true q h r =
        absurd (hit id (f s) (update_rows id f ss) (ap (λ x. x == id) (k s) ∙ q) h)
    hit_or_miss false q h r = ap (λ l. s ∷ l) (r (miss id s (update_rows id f ss) q h))

pub held_entries :
    (n : ℕ) (b : Bool) (o : Option ℕ) (ds : List Daemon)
    → map (λ (d : Daemon). d.entries) (held o (set_running n b ds))
      ≡ map (λ (d : Daemon). d.entries) (held o ds)
held_entries n b none ds = refl
held_entries n b (some m) ds = entries-set_running m n b ds

pub current_entries :
    (o : Option ℕ) (s : Daemons)
    → s.current ≡ o
    → registrations (start_current o s) ≡ registrations s
unfolding start
current_entries none s e = refl
current_entries (some n) s e = held_entries n true s.current s.made
