-- ===== src/Runner/Draining.antt =====
-- internal/runner/worker.go: what is left when every task has ended.
use crawler_lite.Prelude.Base.{
  arith, length, ◌≡◌, refl, sym, ap, ◌∙◌, ◌<◌, ◌≤◌, ◌^◌, true, some, List, [], ◌∷◌, ◌++◌, All, map,
}
use mathlib.Core.List.{append_assoc, append-nil}
use mathlib.Core.Bool.{false≢true}
use mathlib.Core.Path.{subst}
use crawler_lite.Prelude.Int.{ℤ, pos, negsuc, ◌-ℤ◌, wrap32, wrap32-eq, pos_part, neg_part}
use crawler_lite.Hub.Model.{WorkerMsg, task_update}
use crawler_lite.Runner.Outcome.{Outcome}
use crawler_lite.Runner.Worker.{
  Worker, Job, Entry, Occurrence, new_worker, run, drain, end_task, find_job, delete_job,
}
use crawler_lite.Runner.Slots.{IsCounted, has_task, end-IsCounted, run-IsCounted, same_number}

-- The frame that ends a task.
abbrev pub final : (Job → Outcome) → Job → WorkerMsg
final o j = task_update (record {
  task_id = j.task_id;
  state = (o j).state;
  error = (o j).error;
  error_class = (o j).error_class;
})

pub record Drained (o : Job → Outcome) (c : ℤ) (js : List Job) (w w' : Worker) : Type 0 where
  pub idle : w'.jobs ≡ []
  pub counted : IsCounted c w'
  pub told : w'.sent ≡ w.sent ++ map (final o) js

drain-Drained :
    (o : Job → Outcome) (c : ℤ) (js : List Job) (w : Worker)
    → w.jobs ≡ js
    → IsCounted c w
    → Drained o c js w (drain o js w)
unfolding drain end_task
drain-Drained o c [] w e h = record { idle = e; counted = h; told = sym (append-nil w.sent) }
drain-Drained o c (j ∷ js) w e h =
    let found : find_job j.serial w.jobs ≡ some j =
      ap (find_job j.serial) e ∙ rw (same_number j.serial) refl in
    let left : delete_job j.serial w.jobs ≡ js =
      ap (delete_job j.serial) e ∙ rw (same_number j.serial) refl in
    let w' = drain o w.jobs w in
    let d = drain-Drained o c js (end_task j (o j) w) left (end-IsCounted c j (o j) w found h) in
    record {
      idle = d.idle;
      counted = d.counted;
      told = d.told ∙ append_assoc w.sent (final o j ∷ []) (map (final o) js);
    }

none_known : (es : List Entry) → All (λ (e : Entry). has_task e.task_id [] ≡ true) es → es ≡ []
none_known [] h = refl
none_known (e ∷ es) (h, hs) = absurd (false≢true h)

minus_zero : (c : ℤ) → c -ℤ pos 0 ≡ c
unfolding ◌-ℤ◌
minus_zero (pos n) = ground arith
minus_zero (negsuc n) = ground arith

all_free : (c : ℤ) → pos_part c < 2 ^ 31 → neg_part c ≤ 2 ^ 31 → wrap32 (c -ℤ pos 0) ≡ c
all_free c p q = ap wrap32 (minus_zero c) ∙ wrap32-eq c p q

none_running : wrap32 (pos 0) ≡ pos 0
unfolding wrap32
none_running = refl

-- After any sequence of assignments, cancellations, ends, disconnections and heartbeats of a worker that
-- started with `c` slots, an int32: once each goroutine ends, with whatever outcome, every slot is
-- free again, nothing counts as running, no cancel function is left, and the outbox got exactly one final
-- update for each of them.
pub drain_lem :
    (c : ℤ) (es : List Occurrence) (o : Job → Outcome)
    → pos_part c < 2 ^ 31
    → neg_part c ≤ 2 ^ 31
    → let w = run es (new_worker c) in
      let w' = drain o w.jobs w in
      (w'.free_slots ≡ c)
      × (w'.running_count ≡ pos 0)
      × (w'.running ≡ [])
      × (w'.jobs ≡ [])
      × (w'.sent ≡ w.sent ++ map (final o) w.jobs)
unfolding new_worker
drain_lem c es o p q =
    let start = new_worker c in
    let w = run es start in
    let w' = drain o w.jobs w in
    let d = drain-Drained o c w.jobs w refl (
      run-IsCounted c es start
        (record { free = sym (all_free c p q); count = sym none_running; known = tt })) in
    (
      d.counted.free ∙ ap (λ js. wrap32 (c -ℤ pos (length js))) d.idle ∙ all_free c p q,
      d.counted.count ∙ ap (λ js. wrap32 (pos (length js))) d.idle ∙ none_running,
      none_known w'.running (
          subst (λ js. All (λ (e : Entry). has_task e.task_id js ≡ true) w'.running) d.idle
            d.counted.known),
      d.idle,
      d.told,
    )
