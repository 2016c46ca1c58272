-- ===== src/Schedule/Requests.antt =====
-- A master's life as internal/schedule and internal/api/schedules see it: requests, fires of the
-- cron, and the two ends of Run, one after the other.
use crawler_lite.Prelude.Base.{ℕ, Option, List, [], ◌∷◌}
use crawler_lite.Prelude.Int.{ℤ}
use crawler_lite.Prelude.Text.{Unicode}
use crawler_lite.Schedule.Model.{Cron}
use crawler_lite.Schedule.Runner.{World, TaskQueuer, fire, run_start, run_stop}
use crawler_lite.Schedule.Handlers.{
  CreateReq, UpdateReq, on_list, on_get, on_create, on_update, on_delete,
}

pub data Call : Type 0 where
  lists : Call
  gets deletes : Option ℤ → Call
  creates : Option CreateReq → Call
  updates : Option ℤ → Option UpdateReq → Call
  fires stops : ℕ → Call
  starts : Call

module _ {Q : Type 0} where
  unfoldable pub step : Unicode → Cron → TaskQueuer Q → Call → World Q → World Q
  unfolding on_list on_get on_create on_update on_delete fire run_start run_stop
  step u c q lists w = (on_list w).1
  step u c q (gets param) w = (on_get param w).1
  step u c q (deletes param) w = (on_delete c param w).1
  step u c q (creates req) w = (on_create u c req w).1
  step u c q (updates param req) w = (on_update u c param req w).1
  step u c q (fires id) w = fire c q id w
  step u c q starts w = (run_start c w).1
  step u c q (stops held) w = run_stop held w

  unfoldable pub run : Unicode → Cron → TaskQueuer Q → List Call → World Q → World Q
  unfolding step
  run u c q [] w = w
  run u c q (k ∷ ks) w = run u c q ks (step u c q k w)
