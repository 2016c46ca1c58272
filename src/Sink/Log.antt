-- ===== src/Sink/Log.antt =====
-- internal/hub/sinks.go, LogSinkPubsub, over AppendJSONL of internal/storage/minio.go. `encode` is
-- json.Marshal of a line's object, which cannot fail on strings and integers.
use crawler_lite.Prelude.Base.{
  ℕ, ◌+◌, ◌&&◌, Bool, true, false, Option, none, some, List, [], ◌∷◌, ◌++◌, length, if◌then◌else◌,
}
use crawler_lite.Prelude.Text.{Str, is_empty}
use crawler_lite.Hub.Model.{LogLine}
use crawler_lite.Sink.Model.{
  add_count, add_counts, LogBuffer, empty_buffer, Requests, World, find_buffer, put_buffer,
  find_object, put_object, log_key,
}

abbrev pub or_empty : Option LogBuffer → LogBuffer
or_empty none = empty_buffer
or_empty (some b) = b

abbrev pub buffered : Str → Str → LogBuffer → LogBuffer
buffered level line b = record {
  lines = b.lines ++ (line ∷ []);
  lvl_counts = if is_empty level then b.lvl_counts else add_count level 1 b.lvl_counts;
}

-- Write. `publish_ok` is the outcome of the live channel, whose failure is passed over.
unfoldable pub write_log : (LogLine → Str) → Bool → LogLine → World → World
write_log encode publish_ok l w =
    let line = encode l in
    record w {
      published = if publish_ok then (l.task_id, line) ∷ w.published else w.published;
      buffers =
          put_buffer l.task_id (buffered l.level line (or_empty (find_buffer l.task_id w.buffers)))
            w.buffers;
    }

-- The lines with a newline after each.
abbrev pub jsonl : List Str → Str
jsonl [] = []
jsonl (l ∷ ls) = l ++ (10 ∷ jsonl ls)

abbrev pub bytes_of : Option Str → Str
bytes_of none = []
bytes_of (some b) = b

-- tryDownload: every failure reads as an absent object.
unfoldable pub try_download : Requests → Str → List (Str × Str) → Str
try_download q key os = if q.stat_ok && q.download_ok then bytes_of (find_object key os) else []

-- AppendJSONL: whether it succeeds, and the objects.
unfoldable pub append_jsonl : Requests → Str → List Str → List (Str × Str) → Bool × List (Str × Str)
unfolding try_download
append_jsonl q key lines os =
    if q.upload_ok
    then (true, put_object key (try_download q key os ++ jsonl lines) os)
    else (false, os)

-- flushTask under its first lock: the lines and counts are taken out of the buffer.
unfoldable pub take_lines : ℕ → World → Option LogBuffer × World
take_lines task w = elim (find_buffer task w.buffers) [
  | none ↦ (none, w)
  | some b ↦ elim b.lines [
    | [] ↦ (none, w)
    | l ∷ ls ↦ (some b, record w { buffers = put_buffer task empty_buffer w.buffers })
  ]
]

abbrev pub merged : LogBuffer → Option LogBuffer → LogBuffer
merged b none = b
merged b (some c) = record {
  lines = b.lines ++ c.lines;
  lvl_counts = add_counts b.lvl_counts c.lvl_counts;
}

-- flushTask after a failed upload: the lines go back in front of those written since.
unfoldable pub put_back : ℕ → LogBuffer → World → World
put_back task b w = record w {
  buffers = put_buffer task (merged b (find_buffer task w.buffers)) w.buffers;
}

abbrev pub bytes_added : List Str → ℕ
bytes_added [] = 0
bytes_added (l ∷ ls) = length l + 1 + bytes_added ls

-- flushTask after its first lock, with the lines that it took.
unfoldable pub store_lines : Requests → ℕ → LogBuffer → World → World
unfolding append_jsonl put_back
store_lines q task b w =
    let (stored, os) = append_jsonl q (log_key task) b.lines w.objects in
    if stored
    then record w {
      objects = os;
      indexed =
          record {
            task_id = task;
            log_key = log_key task;
            add_bytes = bytes_added b.lines;
            add_lines = length b.lines;
            level_counts = b.lvl_counts;
          }
          ∷ w.indexed;
    }
    else put_back task b (record w { objects = os })

abbrev pub store_taken : Requests → ℕ → Option LogBuffer × World → World
store_taken q task (none, w) = w
store_taken q task (some b, w) = store_lines q task b w

-- flushTask where no write comes between its two locks.
unfoldable pub flush_task : Requests → ℕ → World → World
unfolding take_lines store_lines
flush_task q task w = store_taken q task (take_lines task w)

-- flushAll over the tasks in the order in which Go walks the map, with the requests of each flush.
unfoldable pub flush_all : List (ℕ × Requests) → World → World
unfolding flush_task
flush_all [] w = w
flush_all ((task, q) ∷ rest) w = flush_all rest (flush_task q task w)
