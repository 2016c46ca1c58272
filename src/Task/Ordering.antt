-- ===== src/Task/Ordering.antt =====
-- internal/repository/tasks.go, ListQueued: which rows it selects, and in which order.
use mathlib.Core.List.{Perm, perm_middle}
use crawler_lite.Prelude.Base.{
  sym, if◌then◌else◌, inr, arith, inl, Bool-cases, not, true, ◌∙◌, false, none, ◌++◌, All, Bool,
  Option, [], keep, some, ◌∷◌, List, ◌≡◌, refl,
}
use mathlib.Core.Option.{some-injective}
use mathlib.Core.Path.{subst}
use crawler_lite.Prelude.Int.{◌≤ℤ◌, leb_ℤ}
use mathlib.Core.Bool.{false≢true}
use crawler_lite.Task.Repo.{is_due, is_eligible, insert_by_time, order_by_time}
use crawler_lite.Task.Model.{is_queued, Status, Task}
use crawler_lite.Spider.Model.{Time}
use mathlib.Core.List.Perm

-- A queued row whose not_before is NULL or not later than now.
pub record IsDue (now : Time) (t : Task) : Type 0 where
  pub waits : t.status ≡ Status.queued
  pub reached : (from : Time) → t.not_before ≡ some from → from ≤ℤ now

-- Each row is queued no later than the next one.
pub data IsOldestFirst : List Task → Type 0 where
  nobody : IsOldestFirst []
  alone : (t : Task) → IsOldestFirst (t ∷ [])
  before :
      {s t : Task} {ts : List Task}
      → s.queued_at ≤ℤ t.queued_at
      → IsOldestFirst (t ∷ ts)
      → IsOldestFirst (s ∷ t ∷ ts)

-- `due` are the due ones of the rows, each as often as it occurs, and the oldest first; `rest` are the others.
pub record Selects (now : Time) (rows due rest : List Task) : Type 0 where
  pub parts : Perm rows (due ++ rest)
  pub all_due : All (IsDue now) due
  pub none_due : All (λ t. ¬ IsDue now t) rest
  pub oldest_first : IsOldestFirst due

queued-is_queued : (s : Status) → is_queued s ≡ true → s ≡ Status.queued
queued-is_queued Status.queued e = refl
queued-is_queued Status.running e = cc
queued-is_queued Status.succeeded e = cc
queued-is_queued Status.failed e = cc
queued-is_queued Status.cancelled e = cc
queued-is_queued Status.timeout e = cc
queued-is_queued Status.captcha_blocked e = cc

due-reached :
    (now : Time) (o : Option Time)
    → is_due now o ≡ true
    → (from : Time) → o ≡ some from
    → from ≤ℤ now
due-reached now none h from e = cc
due-reached now (some t) h from e =
    subst (λ x. x ≤ℤ now) (some-injective t from e) (ground (arith, h))

eligible-IsDue : (now : Time) (t : Task) → is_eligible now t ≡ true → IsDue now t
eligible-IsDue now t e = record {
  waits = queued-is_queued t.status (ground (arith, e));
  reached = due-reached now t.not_before (ground (arith, e));
}

reached-due :
    (now : Time) (o : Option Time)
    → ((from : Time) → o ≡ some from → from ≤ℤ now)
    → is_due now o ≡ true
reached-due now none h = refl
reached-due now (some t) h = ground (arith, h t refl)

IsDue-eligible : (now : Time) (t : Task) → IsDue now t → is_eligible now t ≡ true
IsDue-eligible now t d = rw (d.waits) (reached-due now t.not_before d.reached)

insert-Perm : (t : Task) (ts : List Task) → Perm (t ∷ ts) (insert_by_time t ts)
unfolding insert_by_time
insert-Perm t [] = Perm.refl (t ∷ [])
insert-Perm t (s ∷ ss) = elim (Bool-cases (leb_ℤ t.queued_at s.queued_at)) [
  | inl e ↦ rw e (Perm.refl (t ∷ s ∷ ss))
  | inr e ↦ rw e (Perm.trans (Perm.swap s t ss) (Perm.cons s (insert-Perm t ss)))
]

order-Perm : (ts : List Task) → Perm ts (order_by_time ts)
unfolding order_by_time
order-Perm [] = Perm.refl []
order-Perm (t ∷ ts) = Perm.trans (Perm.cons t (order-Perm ts)) (insert-Perm t (order_by_time ts))

insert-IsOldestFirst :
    (t : Task) (ts : List Task) → IsOldestFirst ts → IsOldestFirst (insert_by_time t ts)
unfolding insert_by_time
insert-IsOldestFirst t [] h = alone t
insert-IsOldestFirst t (s ∷ ss) h = elim (Bool-cases (leb_ℤ t.queued_at s.queued_at)) [
  | inl e ↦ rw e (before (ground (arith, e)) h)
  | inr e ↦ rw e (behind s ss (ground (arith, e)) h (λ k. insert-IsOldestFirst t ss k))
]
  where
    behind :
        (s : Task) (ss : List Task)
        → s.queued_at ≤ℤ t.queued_at
        → IsOldestFirst (s ∷ ss)
        → (IsOldestFirst ss → IsOldestFirst (insert_by_time t ss))
        → IsOldestFirst (s ∷ insert_by_time t ss)
    behind s [] k h later = before k (alone t)
    behind s (u ∷ us) k (before j h) later =
        next_first (leb_ℤ t.queued_at u.queued_at) refl (later h)
      where
        next_first :
            (b : Bool)
            → leb_ℤ t.queued_at u.queued_at ≡ b
            → IsOldestFirst (if b then t ∷ u ∷ us else u ∷ insert_by_time t us)
            → IsOldestFirst (s ∷ (if b then t ∷ u ∷ us else u ∷ insert_by_time t us))
        next_first true e l = before k l
        next_first false e l = before j l

order-IsOldestFirst : (ts : List Task) → IsOldestFirst (order_by_time ts)
unfolding order_by_time
order-IsOldestFirst [] = nobody
order-IsOldestFirst (t ∷ ts) = insert-IsOldestFirst t (order_by_time ts) (order-IsOldestFirst ts)

-- The rows that a test keeps, and those that it does not, are all rows.
keep-Perm : (p : Task → Bool) (ts : List Task) → Perm ts (keep p ts ++ keep (λ t. not (p t)) ts)
keep-Perm p [] = Perm.refl []
keep-Perm p (t ∷ ts) = elim (Bool-cases (p t)) [
  | inl e ↦ rw e (Perm.cons t (keep-Perm p ts))
  | inr e ↦ rw e (
      Perm.trans (Perm.cons t (keep-Perm p ts))
        (Perm.symm (perm_middle (keep p ts) (keep (λ t. not (p t)) ts))))
]

All-keep :
    (p : Task → Bool) (P : Task → Type 0) (ts : List Task)
    → All (λ t. p t ≡ true → P t) ts
    → All P (keep p ts)
All-keep p P [] h = tt
All-keep p P (t ∷ ts) (k, h) = elim (Bool-cases (p t)) [
  | inl e ↦ rw e (k e, All-keep p P ts h)
  | inr e ↦ rw e (All-keep p P ts h)
]

All-insert :
    (P : Task → Type 0) (t : Task) (ts : List Task) → P t → All P ts → All P (insert_by_time t ts)
unfolding insert_by_time
All-insert P t [] k h = (k, tt)
All-insert P t (s ∷ ss) k (j, h) = elim (Bool-cases (leb_ℤ t.queued_at s.queued_at)) [
  | inl e ↦ rw e (k, (j, h))
  | inr e ↦ rw e (j, All-insert P t ss k h)
]

All-order : (P : Task → Type 0) (ts : List Task) → All P ts → All P (order_by_time ts)
unfolding order_by_time
All-order P [] h = tt
All-order P (t ∷ ts) (k, h) = All-insert P t (order_by_time ts) k (All-order P ts h)

append-Perm : (xs ys zs : List Task) → Perm xs ys → Perm (xs ++ zs) (ys ++ zs)
append-Perm xs ys zs p = Perm.append_right zs p

from_not : (b : Bool) → not b ≡ true → b ≡ false
from_not true e = sym e
from_not false e = refl

every_row : (P : Task → Type 0) (ts : List Task) → ((t : Task) → P t) → All P ts
every_row P [] h = tt
every_row P (t ∷ ts) h = (h t, every_row P ts h)

All-map : (P Q : Task → Type 0) (ts : List Task) → ((t : Task) → P t → Q t) → All P ts → All Q ts
All-map P Q [] f h = tt
All-map P Q (t ∷ ts) f (k, h) = (f t k, All-map P Q ts f h)

-- What holds of every due row holds of the rows in their order.
pub All-ordered :
    (now : Time) (P : Task → Type 0) (rows : List Task)
    → All (λ t. IsDue now t → P t) rows
    → All P (order_by_time (keep (is_eligible now) rows))
All-ordered now P rows h =
    All-order P (keep (is_eligible now) rows)
      (All-keep (is_eligible now) P rows (All-map _ _ rows (λ t f e. f (eligible-IsDue now t e)) h))

-- The rows that ListQueued selects.
pub ordered-Selects :
    (now : Time) (rows : List Task)
    → Selects now rows
        (order_by_time (keep (is_eligible now) rows))
        (keep (λ t. not (is_eligible now t)) rows)
ordered-Selects now rows = record {
  parts = Perm.trans (keep-Perm (is_eligible now) rows) (
      append-Perm _ _ (keep (λ t. not (is_eligible now t)) rows)
        (order-Perm (keep (is_eligible now) rows)));
  all_due =
      All-order (IsDue now) (keep (is_eligible now) rows)
        (All-keep (is_eligible now) (IsDue now) rows (every_row _ rows (eligible-IsDue now)));
  none_due =
      All-keep (λ t. not (is_eligible now t)) (λ t. ¬ IsDue now t) rows
        (every_row _ rows (λ t e d. false≢true (sym (from_not _ e) ∙ IsDue-eligible now t d)));
  oldest_first = order-IsOldestFirst (keep (is_eligible now) rows);
}
