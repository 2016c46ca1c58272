-- ===== src/Task/Bounds.antt =====
-- What every move keeps: the numbers of the rows and the bound on attempts.
use crawler_lite.Prelude.Base.{
  ℕ, suc, ◌≤◌, ◌<◌, inl, inr, List, [], ◌∷◌, All, All-append, arith, ◌==◌, Bool-cases,
}
use crawler_lite.Prelude.Int.{pos, ◌≤ℤ◌}
use crawler_lite.Prelude.Text.{Str}
use crawler_lite.Spider.Model.{Time}
use crawler_lite.Task.Model.{Status, Task, CreateInput, Db, World, Deps, HubOps}
use crawler_lite.Task.Repo.{at_least_one, new_row, with_status, update_row}
use crawler_lite.Task.Moves.{
  Move, keep, rewrite, insert, Moves, done, next, on_update-Moves, queue-Moves,
}
use crawler_lite.Task.Service.{on_update, queue}
use crawler_lite.Task.Dispatch.{dispatch_once, cancel}
use crawler_lite.Task.Dispatching.{dispatch_once-Moves, cancel-Moves}

-- A row's number is one that the table has given out, and its attempt lies in 1 to 100.
pub record InBounds (limit : ℕ) (t : Task) : Type 0 where
  pub numbered : t.id < limit
  pub first : pos 1 ≤ℤ t.attempt
  pub last : t.attempt ≤ℤ pos 100

abbrev pub Bounded : Db → Type 0
Bounded db = All (InBounds db.next_id) db.tasks

All-weaken : (m n : ℕ) (ts : List Task) → m ≤ n → All (InBounds m) ts → All (InBounds n) ts
All-weaken m n [] h a = tt
All-weaken m n (t ∷ ts) h (a, rest) = (
  record { numbered = omega (arith, a.numbered); first = a.first; last = a.last },
  All-weaken m n ts h rest,
)

with_status-InBounds :
    (now : Time) (s : Status) (message class worker : Str) (n : ℕ) (t : Task)
    → InBounds n t
    → InBounds n (with_status now s message class worker t)
unfolding with_status
with_status-InBounds now s message class worker n t b = record {
  numbered = b.numbered;
  first = b.first;
  last = b.last;
}

update_row-Bounded :
    (id : ℕ) (f : Task → Task) (n : ℕ) (ts : List Task)
    → ((t : Task) → InBounds n t → InBounds n (f t))
    → All (InBounds n) ts
    → All (InBounds n) (update_row id f ts)
unfolding update_row
update_row-Bounded id f n [] k a = tt
update_row-Bounded id f n (t ∷ ts) k (a, rest) = elim (Bool-cases (t.id == id)) [
  | inl e ↦ rw e (k t a, update_row-Bounded id f n ts k rest)
  | inr e ↦ rw e (a, update_row-Bounded id f n ts k rest)
]

new_row-InBounds :
    (id : ℕ) (now : Time) (i : CreateInput)
    → at_least_one i.attempt ≤ℤ pos 100
    → InBounds (suc id) (new_row id now i)
unfolding new_row
new_row-InBounds id now i h = record { numbered = omega arith; first = ground arith; last = h }

Move-Bounded : (a b : Db) → Move a b → Bounded a → Bounded b
Move-Bounded a b (keep s) h = rw (s.tasks, s.next_id) h
Move-Bounded a b (rewrite now id s message class worker ts n ss) h =
    rw (ts, n)
      (update_row-Bounded id _ a.next_id a.tasks
        (with_status-InBounds now s message class worker a.next_id) h)
Move-Bounded a b (insert now i bound ts n ss) h =
    rw (ts, n)
      (All-append (InBounds (suc a.next_id)) a.tasks _
        (All-weaken a.next_id (suc a.next_id) a.tasks (omega arith) h)
        (new_row-InBounds a.next_id now i bound, tt))

-- Through any sequence of the service's moves every row keeps a number below the next one, and an
-- attempt from 1 to 100: no chain of retries has more than 100 tasks.
pub Moves-Bounded : {a b : Db} → Moves a b → Bounded a → Bounded b
Moves-Bounded done h = h
Moves-Bounded {a} (next {b} {c} m s) h = Move-Bounded b c s (Moves-Bounded m h)

-- Each operation of the service keeps this of every row, whatever the hub answers and whichever statements
-- fail: its number is below the next one, and its attempt is from 1 to 100. The operations are an update of
-- a worker, a round of the dispatcher, a cancellation, and a new task that asks for no attempt beyond 100.
pub operations-Bounded :
    {H : Type 0} (ops : HubOps H) (d : Deps) (w : World H) (id : ℕ) (s : Status)
    (message class worker : Str) (i : CreateInput)
    → Bounded w.db
    → at_least_one i.attempt ≤ℤ pos 100
    → Bounded (on_update d id s message class worker w).1.db
      × Bounded (dispatch_once ops d w).db
      × Bounded (cancel ops id w).1.db
      × Bounded (queue i w).1.db
operations-Bounded ops d w id s message class worker i b h = (
  Moves-Bounded (on_update-Moves d id s message class worker w) b,
  Moves-Bounded (dispatch_once-Moves ops d w) b,
  Moves-Bounded (cancel-Moves ops id w) b,
  Moves-Bounded (queue-Moves i w h) b,
)
