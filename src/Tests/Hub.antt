-- ===== src/Tests/Hub.antt =====
-- internal/hub/hub.go on a hub with two workers.
use crawler_lite.Prelude.Base.{
  zero, suc, List, ℕ, ◌≡◌, refl, ◌↔◌, ◌⊎◌, true, false, none, [], ◌∷◌, arith, some,
}
use crawler_lite.Hub.Model.{
  ping, MasterMsg, Session, TaskState, Hello, WorkerHub, map_state, is_terminal,
}
use crawler_lite.Prelude.Int.{pos}
use crawler_lite.Hub.Reach.{
  frees, beats, advances, StateInv, Reach, here, next, joins, leaves, assigns, Reach-Inv,
}
use crawler_lite.Hub.Flow.{visits, free_slot, moved, with_hub, HubState, advance, idle}
use crawler_lite.Hub.Ops.{
  on_heartbeat, cancel_lookup, cancel_send, cancel_running, new_session, register, assign,
  unregister,
}
use crawler_lite.Prelude.Text.{codes}
use crawler_lite.Prelude.Json.{end}
use crawler_lite.Task.Model.{AssignTask}
use crawler_lite.Hub.Races.{cancel_send_lem}
use crawler_lite.Hub.Invariant.{Inv}
use crawler_lite.Hub.Placement.{NotRunning, Placed, Refused, assign_lem}
use crawler_lite.Hub.States.{stored_terminal, is_terminal-map_state}

abbrev empty_hub : WorkerHub
empty_hub = record {
  sessions = [];
  tasks = [];
  gone = [];
  sinks = record { has_log = true; has_item = true; has_artifact = false };
  shared_secret = codes "s";
  written = [];
}

abbrev worker : Hello
worker = record {
  worker_id = codes "w1";
  version = codes "1";
  concurrency = pos 2;
  capabilities = [];
  shared_secret = codes "s";
}

abbrev message : AssignTask
message = record {
  task_id = 9;
  spider_id = 4;
  spider_version = pos 1;
  source_key = codes "k";
  entry_module = codes "main";
  config = end;
  args = end;
  proxy_url = [];
  timeout_s = pos 600;
}

abbrev pub one_worker : WorkerHub
one_worker = register (new_session 7 worker) empty_hub

abbrev reserving : HubState
reserving = moved one_worker (visits (7 ∷ []) message)

-- An Assign that reserved a slot, with a heartbeat and half a release behind it.
abbrev between : HubState
between =
    with_hub (free_slot 7 9 (on_heartbeat 7 (pos 0) (pos 2) (advance reserving).hub))
      (advance reserving)

abbrev after_run : HubState
after_run = with_hub (unregister 7 (advance between).hub) (advance between)

empty_hub-Inv : Inv empty_hub
empty_hub-Inv = record { owned = tt; fit = tt; closed = tt }

empty_hub-StateInv : StateInv (idle empty_hub)
empty_hub-StateInv = record { hub_inv = empty_hub-Inv; held = tt }

sent : (advance between).assigning ≡ none
unfolding advance free_slot on_heartbeat register
sent = refl

abbrev run : Reach (idle empty_hub) after_run
run =
    next
      (next
        (next
          (next
            (next (next (next here (joins 7 worker refl refl)) (assigns (7 ∷ []) message refl))
              advances)
            (beats 7 (pos 0) (pos 2)))
          (frees 7 9))
        advances)
      (leaves 7 sent)

Reach-Inv_example : StateInv after_run
Reach-Inv_example = Reach-Inv empty_hub-StateInv run

one_worker-NotRunning : NotRunning 9 one_worker
unfolding register
one_worker-NotRunning sid s e = ground arith

assign_example : Placed (3 ∷ 7 ∷ []) message one_worker ⊎ Refused (3 ∷ 7 ∷ []) message one_worker
assign_example = assign_lem (3 ∷ 7 ∷ []) message one_worker one_worker-NotRunning

assign_test : (assign (3 ∷ 7 ∷ []) message one_worker).0 ≡ true
unfolding assign register
assign_test = refl

abbrev busy : WorkerHub
busy = (assign (7 ∷ []) message one_worker).1

busy-Inv : Inv busy
unfolding assign register
busy-Inv = record { owned = (refl, tt); fit = (ground arith, tt); closed = tt }

busy_lookup : cancel_lookup 9 busy ≡ some 7
unfolding cancel_lookup assign register
busy_lookup = refl

cancel_send_example :
    (cancel_send 7 9 busy ≡ some (cancel_running 9 busy))
    × (cancel_send 7 9 (unregister 7 busy) ≡ none)
cancel_send_example = cancel_send_lem 9 7 busy busy-Inv busy_lookup

is_terminal_example :
    (is_terminal TaskState.captcha ≡ stored_terminal (map_state TaskState.captcha))
    × ((map_state TaskState.captcha ≡ none) ↔ (TaskState.captcha ≡ TaskState.unspecified))
is_terminal_example = is_terminal-map_state TaskState.captcha

abbrev pings : ℕ → List MasterMsg
pings zero = []
pings (suc n) = ping ∷ pings n

-- A session whose outbox is full.
abbrev stuck : Session
stuck = record (new_session 7 worker) { outbox = pings 64 }

abbrev stuck_hub : WorkerHub
stuck_hub = record empty_hub { sessions = stuck ∷ [] }
