-- ===== src/Sink/Model.antt =====
-- internal/hub/sinks.go and internal/storage/minio.go: log buffers, the object store and the log index.
use crawler_lite.Prelude.Base.{
  ℕ, ◌+◌, ◌==◌, Bool, Option, none, some, List, [], ◌∷◌, ◌++◌, if◌then◌else◌,
}
use crawler_lite.Prelude.Text.{Str, codes, str_eq}
use crawler_lite.Notify.Format.{decimal}

-- A map from levels to counts, with one entry to a level.
abbrev pub Counts : Type 0
Counts = List (Str × ℕ)

abbrev pub count_of : Str → Counts → ℕ
count_of k [] = 0
count_of k ((j, n) ∷ cs) = if str_eq j k then n else count_of k cs

-- `m[k] += n`
abbrev pub add_count : Str → ℕ → Counts → Counts
add_count k n [] = (k, n) ∷ []
add_count k n ((j, m) ∷ cs) = if str_eq j k then (j, m + n) ∷ cs else (j, m) ∷ add_count k n cs

abbrev pub add_counts : Counts → Counts → Counts
add_counts [] to = to
add_counts ((k, n) ∷ cs) to = add_counts cs (add_count k n to)

-- Encoded lines, as bytes.
pub record LogBuffer : Type 0 where
  pub lines : List Str
  pub lvl_counts : Counts

abbrev pub empty_buffer : LogBuffer
empty_buffer = record { lines = []; lvl_counts = [] }

pub record LogIndexUpsert : Type 0 where
  pub task_id : ℕ
  pub log_key : Str
  pub add_bytes : ℕ
  pub add_lines : ℕ
  pub level_counts : Counts

-- The outcome of the three requests of one AppendJSONL: whether the stat, the download and the upload
-- answer.
pub record Requests : Type 0 where
  pub stat_ok : Bool
  pub download_ok : Bool
  pub upload_ok : Bool

-- `buffers` is the map of buffers, `objects` the object store, `published` the lines on the live channel,
-- the latest first, and `indexed` the rows given to the log index, the latest first.
pub record World : Type 0 where
  pub buffers : List (ℕ × LogBuffer)
  pub objects : List (Str × Str)
  pub published : List (ℕ × Str)
  pub indexed : List LogIndexUpsert

abbrev pub find_buffer : ℕ → List (ℕ × LogBuffer) → Option LogBuffer
find_buffer id [] = none
find_buffer id ((k, b) ∷ bs) = if k == id then some b else find_buffer id bs

abbrev pub put_buffer : ℕ → LogBuffer → List (ℕ × LogBuffer) → List (ℕ × LogBuffer)
put_buffer id b [] = (id, b) ∷ []
put_buffer id b ((k, c) ∷ bs) = if k == id then (k, b) ∷ bs else (k, c) ∷ put_buffer id b bs

abbrev pub find_object : Str → List (Str × Str) → Option Str
find_object key [] = none
find_object key ((k, b) ∷ os) = if str_eq k key then some b else find_object key os

abbrev pub put_object : Str → Str → List (Str × Str) → List (Str × Str)
put_object key b [] = (key, b) ∷ []
put_object key b ((k, c) ∷ os) = if str_eq k key then (k, b) ∷ os else (k, c) ∷ put_object key b os

-- logKeyForTask
unfoldable pub log_key : ℕ → Str
log_key task = codes "tasks/" ++ decimal task ++ codes "/log.jsonl"
