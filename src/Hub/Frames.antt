-- ===== src/Hub/Frames.antt =====
-- internal/hub/hub.go, readLoop: what one frame of a worker does to the master.
use crawler_lite.Prelude.Base.{ℕ, Option, none, some, ◌∷◌, if◌then◌else◌}
use crawler_lite.Prelude.Text.{Str}
use crawler_lite.Result.{Result, ok, err}
use crawler_lite.Task.Model.{Status, World, Deps}
use crawler_lite.Task.Service.{on_update}
use crawler_lite.Hub.Model.{
  WorkerMsg, hello, heartbeat, task_update, log_line, item, artifact, unknown, TaskUpdate, TaskMeta,
  SinkWrite, log_write, item_write, artifact_write, WorkerHub, map_state, is_terminal,
}
use crawler_lite.Hub.Ops.{release_task, lookup_task, on_heartbeat}

abbrev pub write : SinkWrite → WorkerHub → WorkerHub
write x h = record h { written = x ∷ h.written }

abbrev pub on_hub : (WorkerHub → WorkerHub) → World WorkerHub → World WorkerHub
on_hub f w = record w { hub = f w.hub }

-- The slot is released once the terminal status is stored.
unfoldable pub settle : ℕ → TaskUpdate → Result (Unit {0}) × World WorkerHub → World WorkerHub
settle sid u (err e, w) = w
settle sid u (ok _, w) = if is_terminal u.state then on_hub (release_task sid u.task_id) w else w

unfoldable pub on_task_update :
    Deps → ℕ → Str → TaskUpdate → Option Status → World WorkerHub → World WorkerHub
unfolding settle
on_task_update d sid worker u none w = w
on_task_update d sid worker u (some status) w =
    settle sid u (on_update d u.task_id status u.error u.error_class worker w)

unfoldable pub on_item : ℕ → Str → Option TaskMeta → WorkerHub → WorkerHub
on_item task payload none h = h
on_item task payload (some m) h =
    if h.sinks.has_item then write (item_write task m.spider_id payload) h else h

-- One frame of the session `sid` of the worker `worker`, behind the registration.
unfoldable pub on_frame : Deps → ℕ → Str → WorkerMsg → World WorkerHub → World WorkerHub
unfolding on_task_update on_item
on_frame d sid worker (hello _) w = w
on_frame d sid worker (heartbeat running free) w = on_hub (on_heartbeat sid running free) w
on_frame d sid worker (task_update u) w = on_task_update d sid worker u (map_state u.state) w
on_frame d sid worker (log_line l) w =
    if w.hub.sinks.has_log then on_hub (write (log_write l)) w else w
on_frame d sid worker (item task payload) w =
    on_hub (λ h. on_item task payload (lookup_task task h) h) w
on_frame d sid worker (artifact a) w =
    if w.hub.sinks.has_artifact then on_hub (write (artifact_write a)) w else w
on_frame d sid worker unknown w = w
