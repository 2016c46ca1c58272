-- ===== src/Task/Chain.antt =====
-- internal/task/service.go, maybeScheduleRetry: the chains of retries.
use crawler_lite.Task.Repo.{at_least_one, find_task}
use mathlib.Core.Path.{subst}
use mathlib.Core.Option.{some-injective}
use mathlib.Core.Bool.{false≢true}
use crawler_lite.Prelude.Base.{
  ℕ, suc, ◌<◌, ◌≡◌, sym, ap, ◌∙◌, inl, inr, true, some, List, [], ◌∷◌, ◌++◌, arith,
}
use crawler_lite.Prelude.Int.{ℤ, pos, ◌+ℤ◌, ◌≤ℤ◌}
use crawler_lite.Prelude.Text.{Str}
use crawler_lite.Task.Model.{Task, World, Deps}
use crawler_lite.Task.Service.{attempt_of, maybe_schedule_retry}
use crawler_lite.Task.Retrying.{child_row, maybe_schedule_retry_lem}
use crawler_lite.Task.Moves.{child_attempt}

-- `n` retries lead from the first task to the last one. In each of them the hook, in any world and for
-- any failure, finds the row of the task before, which may have changed but for its attempt, and says that
-- it scheduled a retry; the next task is the row that it appended.
pub data Chain (H : Type 0) (d : Deps) (first : Task) : ℕ → Task → Type 0 where
  starts : Chain H d first 0 first
  retried :
      {n : ℕ} {t : Task} (w : World H) (id : ℕ) (class : Str) (row child : Task)
      → Chain H d first n t
      → find_task id w.db.tasks ≡ some row
      → row.attempt ≡ t.attempt
      → (maybe_schedule_retry d id class w).0.will_retry ≡ true
      → (maybe_schedule_retry d id class w).1.db.tasks ≡ w.db.tasks ++ (child ∷ [])
      → Chain H d first (suc n) child

last_same : {A : Type 0} (xs : List A) (a b : A) → xs ++ (a ∷ []) ≡ xs ++ (b ∷ []) → a ≡ b
last_same [] a b e = cc
last_same (x ∷ xs) a b e = last_same xs a b (cc)

-- The attempt of the appended row.
retried_attempt :
    {H : Type 0} (d : Deps) (w : World H) (id : ℕ) (class : Str) (row child : Task)
    → find_task id w.db.tasks ≡ some row
    → (maybe_schedule_retry d id class w).0.will_retry ≡ true
    → (maybe_schedule_retry d id class w).1.db.tasks ≡ w.db.tasks ++ (child ∷ [])
    → (child.attempt ≡ attempt_of row +ℤ pos 1) × (attempt_of row +ℤ pos 1 ≤ℤ pos 100)
retried_attempt d w id class row child f r e = elim (maybe_schedule_retry_lem d id class w) [
  | inl (never, _) ↦ absurd (false≢true (sym never ∙ r))
  | inr (_, s) ↦
      let same : s.parent ≡ row = some-injective s.parent row (sym s.parent_found ∙ f) in
      let child_is : child ≡ child_row d w.db.next_id w.now s.parent s.spider =
        last_same w.db.tasks _ _ (sym e ∙ s.appended) in
      subst (λ t. (child.attempt ≡ attempt_of t +ℤ pos 1) × (attempt_of t +ℤ pos 1 ≤ℤ pos 100)) same
        (rw child_is (child_attempt d w.db.next_id w.now s.parent s.spider class s.retries))
]

counted :
    (first a b : ℤ) (n : ℕ)
    → a ≡ at_least_one first +ℤ pos n
    → b ≡ a +ℤ pos 1
    → at_least_one b ≡ at_least_one first +ℤ pos (suc n)
unfolding ◌+ℤ◌
counted first a b n i e = ground arith

few : (first : ℤ) (n : ℕ) → at_least_one first +ℤ pos n +ℤ pos 1 ≤ℤ pos 100 → suc n < 100
unfolding ◌+ℤ◌
few first n h = ground arith

-- A chain of retries ends: the attempt of its last task is that of the first one plus the number of
-- retries, and there are at most 99 of them, whatever the policies say, how they are edited on the way,
-- and whichever statements fail.
pub Chain-ends :
    {H : Type 0} (d : Deps) (first last : Task) (n : ℕ)
    → Chain H d first n last
    → (attempt_of last ≡ attempt_of first +ℤ pos n) × (n < 100)
unfolding ◌+ℤ◌
Chain-ends d first _ _ starts = (ground arith, omega arith)
Chain-ends d first last _ (retried {n = n} {t = t} w id class row child c f e r s) =
    let before = Chain-ends d first t n c in
    let now = retried_attempt d w id class row child f r s in
    let of_row : attempt_of row ≡ attempt_of first +ℤ pos n = ap at_least_one e ∙ before.0 in
    (
      counted first.attempt (attempt_of row) child.attempt n of_row (now.0),
      few first.attempt n (subst (λ a. a +ℤ pos 1 ≤ℤ pos 100) of_row (now.1)),
    )
