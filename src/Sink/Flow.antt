-- ===== src/Sink/Flow.antt =====
-- internal/hub/sinks.go: the sequences of writes and flushes. Writes come from the read loops of all the
-- workers, between any two of the locks of the one goroutine that flushes.
use crawler_lite.Prelude.Base.{
  ℕ, ◌^◌, ltb, ◌==◌, Bool, true, ◌&&◌, ◌||◌, not, Option, none, some, List, [], ◌∷◌, ◌++◌,
  if◌then◌else◌,
}
use crawler_lite.Prelude.Text.{Str}
use crawler_lite.Hub.Model.{LogLine}
use crawler_lite.Sink.Model.{LogBuffer, Requests, World, find_buffer, find_object, log_key}
use crawler_lite.Sink.Log.{write_log, take_lines, store_lines, or_empty, bytes_of, jsonl}

-- What happens next: a line is written, the flush of a task begins, or the flush that was begun ends with
-- these answers of the object store.
pub data Action : Type 0 where
  writes : Bool → LogLine → Action
  takes : ℕ → Action
  stores : Requests → Action

-- The sink, and the flush between its two locks, where there is one.
pub record Flow : Type 0 where
  pub world : World
  pub flight : Option (ℕ × LogBuffer)

abbrev pub taken : ℕ → Option LogBuffer × World → Flow
taken task (none, w) = record { world = w; flight = none }
taken task (some b, w) = record { world = w; flight = some (task, b) }

unfoldable pub act : (LogLine → Str) → Action → Flow → Flow
unfolding write_log take_lines store_lines
act encode (writes publish_ok l) f = record f { world = write_log encode publish_ok l f.world }
act encode (takes task) f = elim f.flight [
  | none ↦ taken task (take_lines task f.world)
  | some _ ↦ f
]
act encode (stores q) f = elim f.flight [
  | none ↦ f
  | some (task, b) ↦ record { world = store_lines q task b f.world; flight = none }
]

unfoldable pub run : (LogLine → Str) → List Action → Flow → Flow
unfolding act
run encode [] f = f
run encode (a ∷ rest) f = run encode rest (act encode a f)

-- A store that takes the upload has answered the stat and the download before it. A flushed task is an
-- int64.
abbrev pub is_safe : Action → Bool
is_safe (takes task) = ltb task (2 ^ 63)
is_safe (stores q) = not q.upload_ok || (q.stat_ok && q.download_ok)
is_safe _ = true

abbrev pub flight_lines : ℕ → Option (ℕ × LogBuffer) → List Str
flight_lines task none = []
flight_lines task (some (k, b)) = if k == task then b.lines else []

abbrev pub buffer_lines : ℕ → World → List Str
buffer_lines task w = (or_empty (find_buffer task w.buffers)).lines

-- All that there is of a task's log: the stored bytes, the lines in flight and the buffered ones.
abbrev pub text_of : ℕ → Flow → Str
text_of task f =
    bytes_of (find_object (log_key task) f.world.objects)
    ++ jsonl (flight_lines task f.flight ++ buffer_lines task f.world)

-- The task's lines among the writes, in their order.
abbrev pub written : (LogLine → Str) → ℕ → List Action → List Str
written encode task [] = []
written encode task (writes p l ∷ rest) =
    let later = written encode task rest in if l.task_id == task then encode l ∷ later else later
written encode task (_ ∷ rest) = written encode task rest
