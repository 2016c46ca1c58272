-- ===== src/Schedule/Daemon.antt =====
-- The cron daemons that internal/schedule/runner.go makes, swaps, starts and stops.
use crawler_lite.Prelude.Base.{
  ℕ, suc, ◌==◌, Bool, false, true, Option, none, some, List, [], ◌∷◌, if◌then◌else◌,
}
use crawler_lite.Prelude.Text.{Str}

-- A registered schedule.
pub record Entry : Type 0 where
  pub schedule_id : ℕ
  pub cron_expr : Str

pub record Daemon : Type 0 where
  pub serial : ℕ
  pub entries : List Entry
  pub is_running : Bool

-- All daemons ever made, the latest first; `current` is the one that the runner holds.
pub record Daemons : Type 0 where
  pub made : List Daemon
  pub current : Option ℕ
  pub next_serial : ℕ

abbrev pub with_running : Bool → Daemon → Daemon
with_running b d = record d { is_running = b }

abbrev pub set_running : ℕ → Bool → List Daemon → List Daemon
set_running n b [] = []
set_running n b (d ∷ ds) = (if d.serial == n then with_running b d else d) ∷ set_running n b ds

-- cron.Start and cron.Stop
unfoldable pub start : ℕ → Daemons → Daemons
start n s = record s { made = set_running n true s.made }

unfoldable pub stop : ℕ → Daemons → Daemons
stop n s = record s { made = set_running n false s.made }

-- What a reload holds between its critical section and the start of the new daemon.
pub record Swap : Type 0 where
  pub old : Option ℕ
  pub fresh : ℕ

-- Under the mutex: the new daemon becomes the current one.
unfoldable pub swap : List Entry → Daemons → Swap × Daemons
swap entries s = (
  record { old = s.current; fresh = s.next_serial },
  record {
    made = record { serial = s.next_serial; entries = entries; is_running = false } ∷ s.made;
    current = some s.next_serial;
    next_serial = suc s.next_serial;
  },
)

-- After it: the old daemon stops, then the new one starts. Without an old one nothing starts.
unfoldable pub hand_over : Swap → Daemons → Daemons
unfolding start stop
hand_over p s = elim p.old [ none ↦ s | some o ↦ start p.fresh (stop o s) ]

-- The start at the end of Run's preparation.
abbrev pub start_current : Option ℕ → Daemons → Daemons
start_current none ds = ds
start_current (some n) ds = start n ds
