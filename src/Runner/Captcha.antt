-- ===== src/Runner/Captcha.antt =====
-- The captcha guarantee, from the event stream of the spider to the task table of the master.
use crawler_lite.Prelude.Base.{ℕ, ◌≡◌, refl, ◌∙◌, ◌⊎◌, inl, inr, false, Option, some, List, arith}
use crawler_lite.Prelude.Int.{ℤ}
use crawler_lite.Prelude.Text.{Str, codes}
use crawler_lite.Result.{Result, ok, err}
use crawler_lite.Task.Model.{captcha_blocked, World, Deps}
use crawler_lite.Task.Repo.{with_status, update_row}
use crawler_lite.Task.Service.{on_update}
use crawler_lite.Task.Updating.{on_update_lem}
use crawler_lite.Hub.Model.{TaskUpdate, task_update, WorkerHub, map_state}
use crawler_lite.Hub.Frames.{settle, on_task_update, on_frame}
use crawler_lite.Runner.Outcome.{
  Outcome, ContextErr, is_canceled, is_deadline, captcha_outcome, Event, run_result,
}
use crawler_lite.Runner.Observers.{last_captcha, observers}

-- Whatever else the spider emits and however its process ends, a run with a captcha event that is neither
-- cancelled nor timed out ends as captcha, with the message of the last captcha event.
pub captcha_wins :
    (task : ℕ) (es : List (ℤ × Event)) (message : Str) (parent_ctx run_ctx : ContextErr)
    (wait_err : Option Str)
    → last_captcha es ≡ some message
    → is_canceled parent_ctx ≡ false
    → is_deadline run_ctx ≡ false
    → run_result task es parent_ctx run_ctx wait_err ≡ some (captcha_outcome message)
unfolding run_result
captcha_wins task es message parent_ctx run_ctx wait_err e alive early =
    ground (arith, observers task es)

-- The final update that the worker sends for an outcome.
abbrev pub update_of : ℕ → Outcome → TaskUpdate
update_of task o = record {
  task_id = task;
  state = o.state;
  error = o.error;
  error_class = o.error_class;
}

settle-db :
    (sid : ℕ) (u : TaskUpdate) (r : Result (Unit {0}) × World WorkerHub)
    → (settle sid u r).db ≡ r.1.db
unfolding settle
settle-db sid u (err e, w) = refl
settle-db sid u (ok _, w) = ground arith

-- An update to captcha_blocked adds no task: the rows are as before, where the write failed, or those
-- with the new status.
captcha_blocked-rows :
    (d : Deps) (id : ℕ) (message class worker : Str) (w : World WorkerHub)
    → let w' = (on_update d id captcha_blocked message class worker w).1 in
      (w'.db.tasks ≡ w.db.tasks)
      ⊎ (w'.db.tasks
          ≡ update_row id (with_status w.now captcha_blocked message class worker) w.db.tasks)
captcha_blocked-rows d id message class worker w =
    elim (on_update_lem d id captcha_blocked message class worker w) [
      | inl (e, q, same) ↦ inl same.tasks
      | inr (q, u) ↦ elim (u.child) [ inl c ↦ inr (c ∙ u.written) | inr x ↦ cc (x.2) ]
    ]

-- A task whose spider reported a captcha, and that was neither cancelled nor timed out, is never
-- retried: the frame with its final update adds no row to the task table, whatever the spider's
-- retry policy says and whichever statements fail. If the write succeeds the task's row is
-- captcha_blocked with the message.
pub captcha_never_retried :
    (d : Deps) (sid task : ℕ) (worker : Str) (w : World WorkerHub) (es : List (ℤ × Event))
    (message : Str) (parent_ctx run_ctx : ContextErr) (wait_err : Option Str) (o : Outcome)
    → last_captcha es ≡ some message
    → is_canceled parent_ctx ≡ false
    → is_deadline run_ctx ≡ false
    → run_result task es parent_ctx run_ctx wait_err ≡ some o
    → let w' = on_frame d sid worker (task_update (update_of task o)) w in
      (w'.db.tasks ≡ w.db.tasks)
      ⊎ (w'.db.tasks
          ≡ update_row task
              (with_status w.now captcha_blocked message (codes "captcha") worker)
              w.db.tasks)
unfolding on_frame on_task_update map_state
captcha_never_retried d sid task worker w es message parent_ctx run_ctx wait_err o e alive early q =
    let same : o ≡ captcha_outcome message =
      cc (captcha_wins task es message parent_ctx run_ctx wait_err e alive early) in
    rw same (
      rw
        (settle-db sid (update_of task (captcha_outcome message))
          (on_update d task captcha_blocked message (codes "captcha") worker w))
        (captcha_blocked-rows d task message (codes "captcha") worker w))
