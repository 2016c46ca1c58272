-- ===== src/Schedule/Running.antt =====
-- internal/schedule/runner.go: which daemons run after any sequence of calls, and after two reloads
-- that overlap.
use crawler_lite.Schedule.Handlers.{
  create_input, on_delete, update_input, answered, on_update, on_create, update_found, UpdateReq,
  on_get, with_id, on_list, removed, written,
}
use crawler_lite.Schedule.Service.{create, remove, get, list, change}
use crawler_lite.Api.Reply.{path_int64, Reply}
use mathlib.Core.Option.{map}
use crawler_lite.Prelude.Base.{
  ◌∙◌, arith, if◌then◌else◌, ap, suc, inr, true, either_branch, Bool-cases, false, inl, ◌<◌, some,
  ◌==◌, Bool, ◌∷◌, ◌≡◌, ℕ, List, Option, refl, none, [],
}
use crawler_lite.Schedule.Runner.{
  run_stop, run_start, fire, scheduled, looked_up, reload, started, TaskQueuer, World, fired,
  reload_rows,
}
use crawler_lite.Result.{ok, err, Result}
use crawler_lite.Schedule.Model.{Tables, Schedule, Cron}
use crawler_lite.Schedule.Rows.{reload_cases}
use crawler_lite.Task.Model.{Task}
use crawler_lite.Prelude.Text.{Str, Unicode}
use crawler_lite.Store.{Store}
use crawler_lite.Schedule.Daemon.{
  Entry, Daemon, Daemons, start, stop, swap, hand_over, start_current, set_running, with_running,
}
use crawler_lite.Schedule.Daemons.{
  AllAlone, exchanged-AllAlone, start_Alone, stop_Alone, find_daemon, current_daemon, fresh_daemon,
}
use crawler_lite.Schedule.Requests.{
  Call, lists, gets, deletes, creates, updates, fires, starts, stops, step, run,
}

start_current-AllAlone :
    (o : Option ℕ) (s : Daemons) → s.current ≡ o → AllAlone s → AllAlone (start_current o s)
unfolding start
start_current-AllAlone none s e h = h
start_current-AllAlone (some n) s e h = start_Alone s n s.made e h

module _ {Q : Type 0} (c : Cron) where
  abbrev Sole : World Q → Type 0
  Sole w = AllAlone w.daemons

  reload-Sole : (w : World Q) → Sole w → Sole (reload c w).1
  unfolding reload_rows
  reload-Sole w h = elim (reload_cases c w) [
    | inl (e, l, q) ↦ rw q h
    | inr (l, q) ↦ rw q (exchanged-AllAlone _ w.daemons h)
  ]

  written-Sole :
      (required other : Str) (status : ℕ) (r : Result Schedule × Store Tables) (w : World Q)
      → Sole w
      → Sole (written c required other status r w).1
  unfolding written
  written-Sole required other status (err e, db) w h = h
  written-Sole required other status (ok s, db) w h = reload-Sole (record w { db = db }) h

  update_found-Sole :
      (u : Unicode) (id : ℕ) (req : Option UpdateReq) (w : World Q)
      → Sole w
      → Sole (update_found u c id req w).1
  update_found-Sole u id none w h = h
  update_found-Sole u id (some q) w h =
      written-Sole _ _ 200 (change u c w.now id (update_input q) w.db) w h

  removed-Sole :
      (r : Result (Unit {0}) × Store Tables) (w : World Q) → Sole w → Sole (removed c r w).1
  unfolding removed
  removed-Sole (err e, db) w h = h
  removed-Sole (ok _, db) w h = reload-Sole (record w { db = db }) h

  fired-Sole :
      (id : ℕ) (s : Schedule) (r : Result Task × Q) (w : World Q) → Sole w → Sole (fired c id s r w)
  unfolding fired
  fired-Sole id s (err e, q) w h = h
  fired-Sole id s (ok t, q) w h = h

  answered-Sole :
      {A : Type 0} (refusal : Reply A) (r : Result A × Store Tables) (w : World Q)
      → Sole w
      → Sole (answered refusal r w).1
  answered-Sole refusal (err e, db) w h = h
  answered-Sole refusal (ok a, db) w h = h

  with_id-Sole :
      {A : Type 0} (o : Option ℕ) (next : ℕ → Reply A × World Q) (w : World Q)
      → Sole w
      → ((id : ℕ) → Sole (next id).1)
      → Sole (with_id o next w).1
  with_id-Sole none next w h k = h
  with_id-Sole (some id) next w h k = k id

  looked_up-Sole :
      (queuer : TaskQueuer Q) (id : ℕ) (w : World Q) (r : Result Schedule × Store Tables)
      → Sole w
      → Sole (looked_up c queuer id w r)
  looked_up-Sole queuer id w (err e, db) h = h
  looked_up-Sole queuer id w (ok s, db) h =
      either_branch Sole s.enabled _ (record w { db = db })
        (fired-Sole id s (queuer.queue (scheduled s) w.tasks) (record w { db = db }) h) h

  started-Sole : (r : Result (Unit {0}) × World Q) → Sole r.1 → Sole (started r).1
  started-Sole (err e, w) h = h
  started-Sole (ok _, w) h = start_current-AllAlone w.daemons.current w.daemons refl h

  step-Sole :
      (u : Unicode) (queuer : TaskQueuer Q) (k : Call) (w : World Q)
      → Sole w
      → Sole (step u c queuer k w)
  unfolding step on_list on_get on_create on_update on_delete fire run_start run_stop stop
  step-Sole u queuer lists w h = answered-Sole _ (list w.db) w h
  step-Sole u queuer (gets param) w h =
      with_id-Sole (path_int64 param) _ w h (λ id. answered-Sole _ (get id w.db) w h)
  step-Sole u queuer (deletes param) w h =
      with_id-Sole (path_int64 param) _ w h (λ id. removed-Sole (remove id w.db) w h)
  step-Sole u queuer (creates none) w h = h
  step-Sole u queuer (creates (some q)) w h =
      written-Sole _ _ 201 (create u c w.now (create_input q) w.db) w h
  step-Sole u queuer (updates param req) w h =
      with_id-Sole (path_int64 param) _ w h (λ id. update_found-Sole u id req w h)
  step-Sole u queuer (fires id) w h = looked_up-Sole queuer id w (get id w.db) h
  step-Sole u queuer starts w h = started-Sole (reload c w) (reload-Sole w h)
  step-Sole u queuer (stops n) w h = stop_Alone w.daemons n w.daemons.made h

-- Over every sequence of requests, fires, starts and stops, one after the other and with whatever
-- statements failing: at most the daemon that the runner holds is running, so a schedule is
-- registered with no second running daemon, and serials stay fresh.
pub run-AllAlone :
    {Q : Type 0} (u : Unicode) (c : Cron) (queuer : TaskQueuer Q) (ks : List Call) (w : World Q)
    → AllAlone w.daemons
    → AllAlone (run u c queuer ks w).daemons
unfolding run
run-AllAlone u c queuer [] w h = h
run-AllAlone u c queuer (k ∷ ks) w h =
    run-AllAlone u c queuer ks (step u c queuer k w) (step-Sole c u queuer k w h)

find-set_same :
    (n : ℕ) (b : Bool) (ds : List Daemon)
    → find_daemon n (set_running n b ds) ≡ map (with_running b) (find_daemon n ds)
find-set_same n b [] = refl
find-set_same n b (x ∷ xs) = elim (Bool-cases (x.serial == n)) [
  | inl q ↦ rw q (rw q refl)
  | inr q ↦ rw q (rw q (find-set_same n b xs))
]

pub find-set_other :
    (n m : ℕ) (b : Bool) (ds : List Daemon)
    → (n == m) ≡ false
    → find_daemon n (set_running m b ds) ≡ find_daemon n ds
find-set_other n m b [] e = refl
find-set_other n m b (x ∷ xs) e = elim (Bool-cases (x.serial == m)) [
  | inl q ↦ ground (arith, q, e, find-set_other n m b xs e)
  | inr q ↦ rw q (ap (λ o. if x.serial == n then some x else o) (find-set_other n m b xs e))
]

-- What is left when a second reload swaps its daemon in and hands over before the first hands over.
unfoldable pub overlap : List Entry → List Entry → Daemons → Daemons
unfolding swap hand_over
overlap first second s =
    let (p, s1) = swap first s in let (q, s2) = swap second s1 in hand_over p (hand_over q s2)

-- Two reloads that overlap while a daemon is running, of which the second finishes first: both new
-- daemons end up running, the one that the runner no longer holds included.
pub overlap_lem :
    (first second : List Entry) (o : ℕ) (s : Daemons)
    → s.current ≡ some o
    → o < s.next_serial
    → let s' = overlap first second s in
      (find_daemon s.next_serial s'.made ≡ some (fresh_daemon s.next_serial first true))
      × (current_daemon s' ≡ some (fresh_daemon (suc s.next_serial) second true))
unfolding overlap swap hand_over start stop
overlap_lem first second o s e k =
    let n = s.next_serial in
    let two = fresh_daemon (suc n) second false ∷ fresh_daemon n first false ∷ s.made in
    let idle = set_running n false two in
    let one = set_running (suc n) true idle in
    let found_first : find_daemon n two ≡ some (fresh_daemon n first false) = ground arith in
    let found_second : find_daemon (suc n) two ≡ some (fresh_daemon (suc n) second false) =
      ground arith in
    rw e (
      find-set_same n true (set_running o false one)
          ∙ ap (map (with_running true)) (
              find-set_other n o false one (ground (arith, k))
              ∙ find-set_other n (suc n) true idle (ground arith)
              ∙ find-set_same n false two
              ∙ ap (map (with_running false)) found_first),
      find-set_other (suc n) n true (set_running o false one) (ground arith)
          ∙ find-set_other (suc n) o false one (ground (arith, k))
          ∙ find-set_same (suc n) true idle
          ∙ ap (map (with_running true))
              (find-set_other (suc n) n false two (ground arith) ∙ found_second),
    )
