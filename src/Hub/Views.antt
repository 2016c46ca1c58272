-- ===== src/Hub/Views.antt =====
-- internal/hub/hub.go, New, SetSharedSecret and Sessions, and internal/api/workers/workers.go.
use crawler_lite.Prelude.Base.{ℕ, List, [], ◌∷◌}
use crawler_lite.Prelude.Int.{ℤ}
use crawler_lite.Prelude.Text.{Str}
use crawler_lite.Api.Reply.{Reply, send}
use crawler_lite.Hub.Model.{Session, Sinks, WorkerHub}

unfoldable pub new_hub : Sinks → WorkerHub
new_hub sinks = record {
  sessions = [];
  tasks = [];
  gone = [];
  sinks = sinks;
  shared_secret = [];
  written = [];
}

unfoldable pub set_shared_secret : Str → WorkerHub → WorkerHub
set_shared_secret secret h = record h { shared_secret = secret }

pub record WorkerView : Type 0 where
  pub worker_id : Str
  pub session_id : ℕ
  pub capabilities : List Str
  pub concurrency : ℤ
  pub free_slots : ℤ
  pub running : ℤ

abbrev pub view : Session → WorkerView
view s = record {
  worker_id = s.worker_id;
  session_id = s.session_id;
  capabilities = s.capabilities;
  concurrency = s.concurrency;
  free_slots = s.free_slots;
  running = s.running_tasks;
}

abbrev pub views : List Session → List WorkerView
views [] = []
views (s ∷ ss) = view s ∷ views ss

-- GET /workers. `order` puts the sessions in the order in which Go walks the map.
unfoldable pub on_workers : (List Session → List Session) → WorkerHub → Reply (List WorkerView)
on_workers order h = send 200 (views (order h.sessions))
