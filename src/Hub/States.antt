-- ===== src/Hub/States.antt =====
-- The states that a worker reports and the statuses that the master stores agree.
use crawler_lite.Prelude.Base.{false, ◌≡◌, ◌↔◌, Bool, Option, none, some, arith}
use crawler_lite.Task.Model.{Status, is_terminal_status}
use crawler_lite.Hub.Model.{TaskState, unspecified, map_state, is_terminal}

abbrev pub stored_terminal : Option Status → Bool
stored_terminal none = false
stored_terminal (some s) = is_terminal_status s

-- For every reported state: the hub calls it terminal exactly when the task service calls the
-- stored status terminal, and only the unspecified state is not stored.
pub is_terminal-map_state :
    (s : TaskState)
    → (is_terminal s ≡ stored_terminal (map_state s)) × ((map_state s ≡ none) ↔ (s ≡ unspecified))
unfolding is_terminal map_state
is_terminal-map_state s = ground arith
