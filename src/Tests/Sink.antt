-- ===== src/Tests/Sink.antt =====
-- internal/hub/sinks.go on a run with a failed upload.
use crawler_lite.Prelude.Int.{ℤ, pos}
use crawler_lite.Prelude.Base.{ℕ, ◌≡◌, refl, true, false, none, List, [], ◌∷◌, ◌++◌, arith}
use crawler_lite.Prelude.Text.{Str, codes}
use crawler_lite.Hub.Model.{LogLine}
use crawler_lite.Sink.Log.{jsonl}
use crawler_lite.Sink.Flow.{Action, writes, takes, stores, Flow, run, text_of, written}
use crawler_lite.Sink.Steps.{IsSmall}
use crawler_lite.Sink.Keeping.{run-text}
use crawler_lite.Sink.Agreement.{Agrees, run-Agrees}
use crawler_lite.Sink.Index.{
  index_of, index_lem, bytes_in, lines_of, levels_in, sum_of, find_count, last_count,
}
use crawler_lite.Sink.Rows.{find_index}
use crawler_lite.Sink.Model.{LogIndexUpsert, log_key}

abbrev line : Str → LogLine
line message = record { task_id = 9; ts_ns = pos 1; level = codes "INFO"; message = message }

abbrev encode : LogLine → Str
encode l = l.message

abbrev actions : List Action
actions =
    writes true (line (codes "a"))
    ∷ takes 9
    ∷ writes false (line (codes "b"))
    ∷ stores (record { stat_ok = true; download_ok = true; upload_ok = false })
    ∷ takes 9
    ∷ stores (record { stat_ok = true; download_ok = true; upload_ok = true })
    ∷ []

abbrev start : Flow
start = record {
  world = record { buffers = []; objects = []; published = []; indexed = [] };
  flight = none;
}

start-IsSmall : IsSmall start.flight
unfolding IsSmall
start-IsSmall = tt

run-text_example :
    text_of 9 (run encode actions start) ≡ text_of 9 start ++ jsonl (written encode 9 actions)
run-text_example =
    run-text encode 9 actions start (refl, (refl, (refl, (refl, (refl, (refl, tt)))))) start-IsSmall
      (omega arith)

abbrev clock : ℕ → ℤ
clock n = pos n

run-Agrees_example : Agrees clock 9 (run encode actions start).world
unfolding index_of log_key
run-Agrees_example =
    run-Agrees encode clock 9 actions start (refl, (refl, (refl, (refl, (refl, (refl, tt))))))
      start-IsSmall (omega arith) refl

-- Two flushes of one task, each with a count of the same level.
abbrev upsert : ℕ → LogIndexUpsert
upsert n = record {
  task_id = 9;
  log_key = codes "k";
  add_bytes = n;
  add_lines = 1;
  level_counts = (codes "INFO", n) ∷ [];
}

index_example :
    let row = find_index 9 (index_of clock (upsert 3 ∷ upsert 5 ∷ [])) in
    (bytes_in row ≡ sum_of (λ u. u.add_bytes) 9 (upsert 3 ∷ upsert 5 ∷ []))
    × (lines_of row ≡ sum_of (λ u. u.add_lines) 9 (upsert 3 ∷ upsert 5 ∷ []))
    × (find_count (codes "INFO") (levels_in row)
        ≡ last_count (codes "INFO") 9 (upsert 3 ∷ upsert 5 ∷ []))
index_example = index_lem clock 9 (codes "INFO") (upsert 3 ∷ upsert 5 ∷ [])
