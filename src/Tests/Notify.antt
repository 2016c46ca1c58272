-- ===== src/Tests/Notify.antt =====
-- internal/notify/notify.go on a table with two channels.
use crawler_lite.Prelude.Base.{List, refl, Bool, true, false, none, some, [], ◌∷◌, arith}
use crawler_lite.Prelude.Int.{pos}
use crawler_lite.Prelude.Text.{codes, ascii_only, trim_space, str_eq}
use crawler_lite.Task.Model.{Status, Event}
use crawler_lite.Notify.Model.{Channel, World, Env}
use crawler_lite.Notify.Requests.{
  Request, creates, notifies, updates, tests, waits, deletes, lists, run, Sound, run-Sound,
}
use crawler_lite.Notify.Sending.{Fresh, expired}
use crawler_lite.Notify.Validity.{IsChannel}

abbrev env : Env
env = record {
  unicode = ascii_only;
  valid_url = λ u. true;
  send_fails = λ d. none;
  format_time = λ t. codes "now";
}

abbrev channel : Bool → Channel
channel on = record {
  id = 1;
  name = codes "ops";
  kind = codes "slack";
  url = codes "slack://x";
  events = codes "failed" ∷ [];
  enabled = on;
  created_by = 0;
  created_at = pos 0;
  updated_at = pos 0;
}

abbrev world : World
world = record {
  db = record { channels = channel true ∷ channel false ∷ []; next_id = 3; faults = [] };
  now = pos 50;
  cache_until = pos 0;
  cached = [];
  sent = [];
}

abbrev failure : Event
failure = record {
  kind = Status.failed;
  task_id = 9;
  spider_id = 4;
  spider_name = codes "news";
  error_class = codes "exit";
  error_message = codes "boom";
  attempt = pos 1;
  max_attempts = pos 3;
  will_retry = true;
  finished_at = pos 50;
}

world-Fresh : Fresh world
world-Fresh = expired (ground arith)

channel-IsChannel : (on : Bool) → IsChannel env (channel on)
unfolding trim_space str_eq
channel-IsChannel on = record { named = refl; addressed = refl; known = refl }

abbrev requests : List Request
requests =
    creates (
      some (record {
        name = codes "dev";
        kind = codes "slack";
        url = codes "slack://y";
        events = none;
        enabled = none;
      }))
    ∷ notifies failure
    ∷ updates (some (pos 1)) none
    ∷ tests (some (pos 2))
    ∷ waits 60
    ∷ deletes (some (pos 1))
    ∷ notifies failure
    ∷ lists
    ∷ []

run-Sound_example : Sound env (run env requests world)
run-Sound_example = run-Sound env requests world (record {
  begun = ground arith;
  fresh = world-Fresh;
  channels = (channel-IsChannel true, (channel-IsChannel false, tt));
})
