-- ===== src/Tests/Live.antt =====
-- internal/api/tasks/tasks.go, RegisterLogStream: a client that comes while a line is buffered.
use crawler_lite.Prelude.Base.{true, none, List, [], ◌∷◌}
use crawler_lite.Prelude.Int.{pos}
use crawler_lite.Prelude.Text.{Str, codes}
use crawler_lite.Hub.Model.{LogLine}
use crawler_lite.Sink.Model.{log_key}
use crawler_lite.Sink.Log.{jsonl}
use crawler_lite.Sink.Flow.{Action, writes, Flow}
use crawler_lite.Sink.Tables.{LogIndex}
use crawler_lite.Task.Stream.{Turn, message, ping}

abbrev encode : LogLine → Str
encode l = l.message

abbrev later : List Action
later =
    writes true (record { task_id = 9; ts_ns = pos 4; level = codes "INFO"; message = codes "d" })
    ∷ []

abbrev actions : List Action
actions =
    writes true (record { task_id = 9; ts_ns = pos 3; level = codes "INFO"; message = codes "c" })
    ∷ []

-- The line `a` is stored and the line `b` is buffered.
abbrev start : Flow
start = record {
  world = record {
    buffers = (9, record { lines = codes "b" ∷ []; lvl_counts = [] }) ∷ [];
    objects = (log_key 9, jsonl (codes "a" ∷ [])) ∷ [];
    published = [];
    indexed = [];
  };
  flight = none;
}

abbrev row : LogIndex
row = record {
  task_id = 9;
  log_key = log_key 9;
  bytes = 2;
  line_count = 1;
  level_counts = [];
  updated_at = pos 1;
}

abbrev turns : List Turn
turns = ping true ∷ message (codes "c") true ∷ message (codes "d") true ∷ []
