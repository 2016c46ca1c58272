-- ===== src/Schedule/Reloading.antt =====
-- internal/schedule/runner.go: what a reload registers, and the registrations after any sequence of
-- calls while statements succeed.
use crawler_lite.Schedule.Daemon.{with_running, Entry, Daemon, stop, set_running}
use crawler_lite.Schedule.Running.{find-set_other}
use crawler_lite.Schedule.Daemons.{
  held, exchanged-current, find_daemon, current_daemon, fresh_daemon, is_some,
}
use mathlib.Core.Option.{some-injective, map}
use crawler_lite.Schedule.Repo.{with_next, mark_row, update_next_run, enabled_rows, update_rows}
use crawler_lite.Schedule.Rows.{reload_cases}
use crawler_lite.Store.{statement_keeps, Store}
use crawler_lite.Prelude.Base.{
  Option-cases, ◌⊎◌, if◌then◌else◌, ◌≡◌, refl, sym, ap, ◌∙◌, inl, inr, ◌<◌, ℕ, ◌==◌, Bool, true,
  false, Option, none, some, List, [], ◌∷◌, arith, Bool-cases,
}
use crawler_lite.Result.{err, ok, Error}
use crawler_lite.Schedule.Runner.{
  refresh_row, reload, World, refresh, reload_rows, run_stop, registered, entry_of,
}
use crawler_lite.Spider.Model.{Time}
use crawler_lite.Schedule.Model.{Tables, Cron, Schedule}
use mathlib.Core.List

-- The entries that the enabled rows ask for.
abbrev pub live : Cron → List Schedule → List Entry
live c rows = List.map entry_of (registered c (enabled_rows rows))

-- The changes of a row that the registrations do not see.
pub record IsHidden (f : Schedule → Schedule) : Type 0 where
  pub same_entry : (s : Schedule) → entry_of (f s) ≡ entry_of s
  pub same_enabled : (s : Schedule) → (f s).enabled ≡ s.enabled

abbrev put_entry : Cron → Bool → Entry → List Entry → List Entry
put_entry c on e l = if on then (if c.accepts e.cron_expr then e ∷ l else l) else l

live_head :
    (c : Cron) (s : Schedule) (ss : List Schedule)
    → live c (s ∷ ss) ≡ put_entry c s.enabled (entry_of s) (live c ss)
live_head c s ss = elim (Bool-cases s.enabled) [
  | inl e ↦ elim (Bool-cases (c.accepts s.cron_expr)) [ inl q ↦ simp (e, q) | inr q ↦ simp (e, q) ]
  | inr e ↦ simp (e)
]

live_cons :
    (c : Cron) (s t : Schedule) (ss ts : List Schedule)
    → entry_of s ≡ entry_of t
    → s.enabled ≡ t.enabled
    → live c ss ≡ live c ts
    → live c (s ∷ ss) ≡ live c (t ∷ ts)
live_cons c s t ss ts e f r =
    live_head c s ss
    ∙ ap (λ b. put_entry c b (entry_of s) (live c ss)) f
    ∙ ap (λ x. put_entry c t.enabled x (live c ss)) e
    ∙ ap (put_entry c t.enabled (entry_of t)) r
    ∙ sym (live_head c t ts)

pub live-update_rows :
    (c : Cron) (id : ℕ) (f : Schedule → Schedule) (rows : List Schedule)
    → IsHidden f
    → live c (update_rows id f rows) ≡ live c rows
live-update_rows c id f [] h = refl
live-update_rows c id f (s ∷ ss) h = elim (Bool-cases (s.id == id)) [
  | inl e ↦ rw e (
      live_cons c (f s) s (update_rows id f ss) ss (h.same_entry s) (h.same_enabled s)
        (live-update_rows c id f ss h))
  | inr e ↦ rw e (live_cons c s s (update_rows id f ss) ss refl refl (live-update_rows c id f ss h))
]

pub entries-set_running :
    (n m : ℕ) (b : Bool) (ds : List Daemon)
    → map (λ (d : Daemon). d.entries) (find_daemon n (set_running m b ds))
      ≡ map (λ (d : Daemon). d.entries) (find_daemon n ds)
entries-set_running n m b [] = refl
entries-set_running n m b (d ∷ ds) = elim (Bool-cases (d.serial == m)) [
  | inl e ↦ elim (Bool-cases (d.serial == n)) [
    | inl q ↦ rw e (rw q refl)
    | inr q ↦ rw e (rw q (entries-set_running n m b ds))
  ]
  | inr e ↦ elim (Bool-cases (d.serial == n)) [
    | inl q ↦ rw e (rw q refl)
    | inr q ↦ rw e (rw q (entries-set_running n m b ds))
  ]
]

abbrev IsLive : Cron → List Entry → Tables → Type 0
IsLive c es t = live c t.schedules ≡ es

refresh_row-IsLive :
    (c : Cron) (now : Time) (s : Schedule) (db : Store Tables) (es : List Entry)
    → IsLive c es db.tables
    → IsLive c es (refresh_row c now s db).tables
unfolding update_next_run
refresh_row-IsLive c now s db es h = elim (Option-cases (c.parse s.cron_expr)) [
  | inl e ↦ rw (e, refresh_row) h
  | inr (next, e) ↦
      rw (e, refresh_row)
        (statement_keeps (IsLive c es) (mark_row s.id (with_next (some (next now)))) db h (
          live-update_rows c s.id (with_next (some (next now))) db.tables.schedules
            (record { same_entry = λ _. refl; same_enabled = λ _. refl })
          ∙ h))
]

pub refresh-live :
    (c : Cron) (now : Time) (ss : List Schedule) (db : Store Tables)
    → live c (refresh c now ss db).tables.schedules ≡ live c db.tables.schedules
unfolding refresh
refresh-live c now [] db = refl
refresh-live c now (s ∷ ss) db =
    refresh-live c now ss (refresh_row c now s db) ∙ refresh_row-IsLive c now s db _ refl

-- A reload whose query fails changes nothing but the outcomes to come. Otherwise a new daemon that the
-- runner holds from then on has exactly the enabled rows whose expression it takes, in the order of the
-- table, and it runs exactly where the runner held a daemon before; the rows keep what the
-- registrations see.
pub reload_lem :
    {Q : Type 0} (c : Cron) (w : World Q)
    → ((e : Error) × ((reload c w).0 ≡ err e)
        × ((reload c w).1.daemons ≡ w.daemons)
        × ((reload c w).1.db.tables ≡ w.db.tables))
      ⊎ (((reload c w).0 ≡ ok tt)
          × (current_daemon (reload c w).1.daemons
              ≡ some (
                  fresh_daemon w.daemons.next_serial
                    (live c w.db.tables.schedules)
                    (is_some w.daemons.current)))
          × (live c (reload c w).1.db.tables.schedules ≡ live c w.db.tables.schedules))
unfolding reload_rows
reload_lem c w = elim (reload_cases c w) [
  | inl (e, l, q) ↦ inl (e, ap (λ r. r.0) q, ap (λ r. r.1.daemons) q, ap (λ r. r.1.db.tables) q)
  | inr (l, q) ↦ inr (
    ap (λ r. r.0) q,
    ap (λ r. current_daemon r.1.daemons) q ∙ exchanged-current _ w.daemons,
    ap (λ r. live c r.1.db.tables.schedules) q
        ∙ refresh-live c w.now (registered c (enabled_rows w.db.tables.schedules))
            (record w.db { faults = l }),
  )
]

find-serial :
    (n : ℕ) (ds : List Daemon) (d : Daemon) → find_daemon n ds ≡ some d → (d.serial == n) ≡ true
find-serial n [] d e = cc
find-serial n (x ∷ xs) d e = head_or_later (x.serial == n) refl e (find-serial n xs d)
  where
    head_or_later :
        (b : Bool)
        → (x.serial == n) ≡ b
        → (if b then some x else find_daemon n xs) ≡ some d
        → (find_daemon n xs ≡ some d → (d.serial == n) ≡ true)
        → (d.serial == n) ≡ true
    head_or_later true q h k = ap (λ (y : Daemon). y.serial == n) (sym (some-injective x d h)) ∙ q
    head_or_later false q h k = k h

-- Stopping another daemon leaves the held one.
stop_other :
    (n : ℕ) (o : Option ℕ) (ds : List Daemon) (d : Daemon)
    → (d.serial == n) ≡ false
    → held o ds ≡ some d
    → held o (set_running n false ds) ≡ some d
stop_other n none ds d k e = e
stop_other n (some m) ds d k e =
    find-set_other m n false ds (ground (arith, k, find-serial m ds d e)) ∙ e

-- Where a daemon is stopped.
abbrev pub stopped_if : Bool → Daemon → Daemon
stopped_if b d = if b then with_running false d else d

find-stopped :
    (n m : ℕ) (ds : List Daemon)
    → find_daemon m (set_running n false ds) ≡ map (stopped_if (m == n)) (find_daemon m ds)
find-stopped n m [] = refl
find-stopped n m (d ∷ ds) = elim (Bool-cases (d.serial == n)) [
  | inl e ↦ elim (Bool-cases (d.serial == m)) [
    | inl q ↦ rw (e, q) (ap some (stops_it (m == n) (ground (arith, e, q))))
    | inr q ↦ rw (e, q) (find-stopped n m ds)
  ]
  | inr e ↦ elim (Bool-cases (d.serial == m)) [
    | inl q ↦ rw (e, q) (ap some (keeps_it (m == n) (ground (arith, e, q))))
    | inr q ↦ rw (e, q) (find-stopped n m ds)
  ]
]
  where
    stops_it : (b : Bool) → b ≡ true → with_running false d ≡ stopped_if b d
    stops_it true k = refl
    stops_it false k = cc

    keeps_it : (b : Bool) → b ≡ false → d ≡ stopped_if b d
    keeps_it true k = cc
    keeps_it false k = refl

run_stop-current :
    {Q : Type 0} (c : Cron) (w : World Q) (started_with : ℕ)
    → w.daemons.current ≡ some started_with
    → started_with < w.daemons.next_serial
    → (reload c w).0 ≡ ok tt
    → current_daemon (run_stop started_with (reload c w).1).daemons
      ≡ some (fresh_daemon w.daemons.next_serial (live c w.db.tables.schedules) true)
unfolding run_stop stop
run_stop-current c w n e k r = elim (reload_lem c w) [
  | inl (x, q, _, _) ↦ cc
  | inr (_, q, _) ↦
      stop_other n (reload c w).1.daemons.current (reload c w).1.daemons.made _ (ground (arith, k))
        (q
          ∙ ap (λ b. some (fresh_daemon w.daemons.next_serial (live c w.db.tables.schedules) b))
              (ap is_some e))
]

-- The shutdown of Run stops the daemon that Run started with, no other daemon, and changes nothing else.
-- Where a reload that succeeded came before it, the daemon that the runner holds by then is another one,
-- with the enabled rows, and it stays running.
pub run_stop_lem :
    {Q : Type 0} (c : Cron) (w : World Q) (started_with : ℕ)
    → w.daemons.current ≡ some started_with
    → started_with < w.daemons.next_serial
    → (reload c w).0 ≡ ok tt
    → ((m : ℕ)
        → find_daemon m (run_stop started_with w).daemons.made
          ≡ map (stopped_if (m == started_with)) (find_daemon m w.daemons.made))
      × ((run_stop started_with w).daemons.current ≡ w.daemons.current)
      × ((run_stop started_with w).db ≡ w.db)
      × ((run_stop started_with w).tasks ≡ w.tasks)
      × (current_daemon (run_stop started_with (reload c w).1).daemons
          ≡ some (fresh_daemon w.daemons.next_serial (live c w.db.tables.schedules) true))
unfolding run_stop stop
run_stop_lem c w n e k r =
    (λ m. find-stopped n m w.daemons.made, refl, refl, refl, run_stop-current c w n e k r)
