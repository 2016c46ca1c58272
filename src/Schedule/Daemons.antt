-- ===== src/Schedule/Daemons.antt =====
-- Which daemons of internal/schedule/runner.go run, one reload after another and two at a time.
use crawler_lite.Prelude.Base.{
  ==_iff, ap, Option-cases, ◌∙◌, sym, inr, inl, Bool-cases, if◌then◌else◌, ◌≡◌, refl, ◌<◌, ℕ, suc,
  ◌==◌, Bool, true, false, Option, none, some, List, [], ◌∷◌, All, arith,
}
use mathlib.Core.Bool.{false≢true}
use crawler_lite.Schedule.Daemon.{Entry, Daemon, Daemons, set_running, start, stop, swap, hand_over}

abbrev pub find_daemon : ℕ → List Daemon → Option Daemon
find_daemon n [] = none
find_daemon n (d ∷ ds) = if d.serial == n then some d else find_daemon n ds

-- The daemon that the runner holds.
abbrev pub held : Option ℕ → List Daemon → Option Daemon
held none ds = none
held (some n) ds = find_daemon n ds

abbrev pub current_daemon : Daemons → Option Daemon
current_daemon s = held s.current s.made

-- Serials are fresh, and a daemon that runs is the current one.
pub record Alone (holds : Option ℕ) (next : ℕ) (d : Daemon) : Type 0 where
  pub known : d.serial < next
  pub only : d.is_running ≡ true → holds ≡ some d.serial

abbrev pub AllAlone : Daemons → Type 0
AllAlone s = All (Alone s.current s.next_serial) s.made

not_true : (b : Bool) → (b ≡ true → b ≡ false) → b ≡ false
not_true true h = h refl
not_true false h = refl

-- An old daemon, in the runner that holds the next one.
abbrev Past : ℕ → Daemon → Type 0
Past n d = (d.serial < n) × (d.is_running ≡ false)

stopped_one-Past :
    (s : Daemons) (o : ℕ) (d : Daemon)
    → s.current ≡ some o
    → Alone s.current s.next_serial d
    → Past s.next_serial (if d.serial == o then record d { is_running = false } else d)
stopped_one-Past s o d e h = elim (Bool-cases (d.serial == o)) [
  | inl q ↦ rw q (h.known, refl)
  | inr q ↦ rw q (h.known, not_true d.is_running (λ r. ground (arith, q, sym e ∙ h.only r)))
]

idle_one-Past :
    (s : Daemons) (d : Daemon)
    → s.current ≡ none
    → Alone s.current s.next_serial d
    → Past s.next_serial d
idle_one-Past s d e h = (h.known, not_true d.is_running (λ r. cc (e, h.only r)))

stopped-Past :
    (s : Daemons) (o : ℕ) (ds : List Daemon)
    → s.current ≡ some o
    → All (Alone s.current s.next_serial) ds
    → All (Past s.next_serial) (set_running o false ds)
stopped-Past s o [] e h = tt
stopped-Past s o (d ∷ ds) e (h, hs) = (stopped_one-Past s o d e h, stopped-Past s o ds e hs)

idle-Past :
    (s : Daemons) (ds : List Daemon)
    → s.current ≡ none
    → All (Alone s.current s.next_serial) ds
    → All (Past s.next_serial) ds
idle-Past s [] e h = tt
idle-Past s (d ∷ ds) e (h, hs) = (idle_one-Past s d e h, idle-Past s ds e hs)

-- Daemons of the past stay so when another one starts.
started-Past : (n : ℕ) (ds : List Daemon) → All (Past n) ds → All (Past n) (set_running n true ds)
started-Past n [] h = tt
started-Past n (d ∷ ds) ((k, r), hs) = (rw (older n d k) (k, r), started-Past n ds hs)
  where
    older : (n : ℕ) (d : Daemon) → d.serial < n → (d.serial == n) ≡ false
    older n d k = ground arith

Past-Alone :
    (holds : Option ℕ) (n : ℕ) (ds : List Daemon) → All (Past n) ds → All (Alone holds (suc n)) ds
Past-Alone holds n [] h = tt
Past-Alone holds n (d ∷ ds) ((k, r), hs) = (
  record { known = omega (arith, k); only = λ q. absurd (false≢true (sym r ∙ q)) },
  Past-Alone holds n ds hs,
)

-- What a reload that nothing overlaps does to the daemons.
abbrev pub exchanged : List Entry → Daemons → Daemons
exchanged es s = hand_over (swap es s).0 (swap es s).1

abbrev pub fresh_daemon : ℕ → List Entry → Bool → Daemon
fresh_daemon n es b = record { serial = n; entries = es; is_running = b }

pub same : (n : ℕ) → (n == n) ≡ true
same n = ground arith

abbrev taken_over : List Entry → ℕ → Daemons → Daemons
taken_over es o s = record {
  made =
      fresh_daemon s.next_serial es true
      ∷ set_running s.next_serial true (set_running o false s.made);
  current = some s.next_serial;
  next_serial = suc s.next_serial;
}

exchanged-some :
    (es : List Entry) (o : ℕ) (s : Daemons)
    → s.current ≡ some o
    → exchanged es s ≡ taken_over es o s
unfolding swap hand_over start stop
exchanged-some es o s e = elim (Bool-cases (s.next_serial == o)) [
  | inl q ↦ rw e (rw (q, same s.next_serial) refl)
  | inr q ↦ rw e (rw (q, same s.next_serial) refl)
]

exchanged-none :
    (es : List Entry) (s : Daemons)
    → s.current ≡ none
    → exchanged es s ≡ record {
      made = fresh_daemon s.next_serial es false ∷ s.made;
      current = some s.next_serial;
      next_serial = suc s.next_serial;
    }
unfolding swap hand_over
exchanged-none es s e = rw e refl

abbrev pub is_some : Option ℕ → Bool
is_some none = false
is_some (some n) = true

-- The new daemon is the current one, and it runs exactly where there was one before.
pub exchanged-current :
    (es : List Entry) (s : Daemons)
    → current_daemon (exchanged es s) ≡ some (fresh_daemon s.next_serial es (is_some s.current))
exchanged-current es s = elim (Option-cases s.current) [
  | inl e ↦ ap current_daemon (exchanged-none es s e) ∙ rw (same s.next_serial, e) refl
  | inr (o, e) ↦ ap current_daemon (exchanged-some es o s e) ∙ rw (same s.next_serial, e) refl
]

pub exchanged-AllAlone : (es : List Entry) (s : Daemons) → AllAlone s → AllAlone (exchanged es s)
exchanged-AllAlone es s h = elim (Option-cases s.current) [
  | inl e ↦ rw (exchanged-none es s e) (
    record { known = omega arith; only = λ q. absurd (false≢true q) },
    Past-Alone _ s.next_serial s.made (idle-Past s s.made e h),
  )
  | inr (o, e) ↦ rw (exchanged-some es o s e) (
    record { known = omega arith; only = λ _. refl },
    Past-Alone _ s.next_serial _
        (started-Past s.next_serial (set_running o false s.made) (stopped-Past s o s.made e h)),
  )
]

-- Starting the current daemon and stopping any.
pub start_Alone :
    (s : Daemons) (n : ℕ) (ds : List Daemon)
    → s.current ≡ some n
    → All (Alone s.current s.next_serial) ds
    → All (Alone s.current s.next_serial) (set_running n true ds)
start_Alone s n [] e h = tt
start_Alone s n (d ∷ ds) e (h, hs) = elim (Bool-cases (d.serial == n)) [
  | inl q ↦ rw q (
    record { known = h.known; only = λ _. e ∙ ap some (sym ((==_iff d.serial n).0 q)) },
    start_Alone s n ds e hs,
  )
  | inr q ↦ rw q (h, start_Alone s n ds e hs)
]

pub stop_Alone :
    (s : Daemons) (n : ℕ) (ds : List Daemon)
    → All (Alone s.current s.next_serial) ds
    → All (Alone s.current s.next_serial) (set_running n false ds)
stop_Alone s n [] h = tt
stop_Alone s n (d ∷ ds) (h, hs) = elim (Bool-cases (d.serial == n)) [
  | inl q ↦
      rw q (record { known = h.known; only = λ r. absurd (false≢true r) }, stop_Alone s n ds hs)
  | inr q ↦ rw q (h, stop_Alone s n ds hs)
]
