-- ===== src/Tests/Runner.antt =====
-- internal/runner/executor.go on a run that reports a captcha and then fails.
use crawler_lite.Prelude.Base.{
  true, none, map, ap, arith, All, keep, ◌+◌, ◌≤◌, ◌<◌, ◌≡◌, refl, ◌⊎◌, ℕ, false, some, List, [],
  ◌∷◌, ◌++◌, length, take,
}
use crawler_lite.Runner.Worker.{
  Occurrence, starts, beats, ends, cancels, disconnects, run, drain, new_worker, fake_result,
}
use crawler_lite.Runner.Draining.{final, drain_lem}
use crawler_lite.Prelude.Text.{str_eq, Str, ascii_only, codes}
use crawler_lite.Runner.Extraction.{unzip_to-IsSafe, IsSafe}
use crawler_lite.Runner.Connection
use crawler_lite.Runner.Connection.{Happening, opens, puts, pumps, closes, new_link}
use crawler_lite.Runner.Delivery.{Kept, run-Kept, new_link-Kept}
use crawler_lite.Hub.Model.{heartbeat, welcome, WorkerHub, task_update}
use crawler_lite.Runner.Unzip.{unzip_to, Entry}
use crawler_lite.Result.{ok}
use crawler_lite.Prelude.Path.{clean}
use crawler_lite.Prelude.Int.{ℤ, pos}
use crawler_lite.Task.Model.{World, captcha_blocked}
use crawler_lite.Task.Repo.{update_row, with_status}
use crawler_lite.Hub.Frames.{on_frame}
use crawler_lite.Runner.Outcome.{
  live, captcha_outcome, truncate_err, ellipsis, Event, log_event, captcha_event, garbled,
  run_result,
}
use crawler_lite.Runner.Tail.{stream_uv, last, is_text, lines_of, stream_uv_tail}
use crawler_lite.Runner.Truncation.{LastStart, truncate_err_lem}
use crawler_lite.Runner.Captcha.{update_of, captcha_wins, captcha_never_retried}
use crawler_lite.Tests.Task.{deps, tables}
use crawler_lite.Tests.Hub.{one_worker}

abbrev events : List (ℤ × Event)
events =
    (pos 1, captcha_event (codes "blocked"))
    ∷ (pos 2, garbled)
    ∷ (pos 3, log_event (codes "error") (codes "boom") (pos 0) (codes "trace"))
    ∷ []

abbrev world : World WorkerHub
world = record { db = tables; now = pos 100; wakeup = false; hub = one_worker; sent = [] }

captcha_run :
    run_result 9 events live live (some (codes "exit status 1"))
    ≡ some (captcha_outcome (codes "blocked"))
captcha_run =
    captcha_wins 9 events (codes "blocked") live live (some (codes "exit status 1")) refl refl refl

captcha_never_retried_example :
    let w' =
      on_frame deps 7
        (codes "w1")
        (task_update (update_of 9 (captcha_outcome (codes "blocked"))))
        world in
    (w'.db.tasks ≡ tables.tasks)
    ⊎ (w'.db.tasks
        ≡ update_row 9
            (with_status (pos 100) captcha_blocked (codes "blocked") (codes "captcha") (codes "w1"))
            tables.tasks)
captcha_never_retried_example =
    captcha_never_retried deps 7 9 (codes "w1") world events (codes "blocked") live live
      (some (codes "exit status 1")) (captcha_outcome (codes "blocked")) refl refl refl captcha_run

truncate_err_example :
    ((length (codes "boom") ≤ 3) × (truncate_err (codes "boom") 3 ≡ some (codes "boom")))
    ⊎ ((k : ℕ) × (3 < length (codes "boom"))
        × LastStart (codes "boom") 3 k
        × (truncate_err (codes "boom") 3 ≡ some (take k (codes "boom") ++ ellipsis))
        × (length (take k (codes "boom") ++ ellipsis) ≤ 3 + 3))
truncate_err_example = truncate_err_lem (codes "boom") 3 refl

abbrev uv_lines : List (ℤ × Str)
uv_lines =
    (pos 1, codes "Resolving") ∷ (pos 2, codes " ") ∷ (pos 3, codes "No matching distribution") ∷ []

stream_uv_example :
    (stream_uv ascii_only 9 (codes "INFO") uv_lines ([], [])).0
    ≡ last 5 (keep (is_text ascii_only) (lines_of uv_lines))
stream_uv_example = stream_uv_tail ascii_only 9 (codes "INFO") uv_lines []

abbrev archive : List Entry
archive =
    record { name = codes "main.py"; is_dir = false; body = ok tt }
    ∷ record { name = codes "../evil"; is_dir = false; body = ok tt }
    ∷ []

abbrev work : Str
work = codes "/work/task-9"

work-clean : clean work ≡ work
unfolding clean str_eq
work-clean = refl

unzip_to_example :
    All
      (IsSafe work)
      (unzip_to (codes "/") work (ok archive) (record { tables = []; faults = [] })).1.tables
unzip_to_example =
    unzip_to-IsSafe (codes "/") work (ok archive) (record { tables = []; faults = [] }) refl
      work-clean (λ e. omega (arith, ap length e)) tt

-- A task that is assigned twice, of which one ends, and a cancellation.
abbrev occurrences : List Occurrence
occurrences =
    starts 9
    ∷ starts 9
    ∷ starts 4
    ∷ beats
    ∷ ends 0 (captcha_outcome [])
    ∷ cancels 4
    ∷ disconnects
    ∷ []

drain_example :
    let w = run occurrences (new_worker (pos 4)) in
    let w' = drain fake_result w.jobs w in
    (w'.free_slots ≡ pos 4)
    × (w'.running_count ≡ pos 0)
    × (w'.running ≡ [])
    × (w'.jobs ≡ [])
    × (w'.sent ≡ w.sent ++ map (final fake_result) w.jobs)
drain_example = drain_lem (pos 4) occurrences fake_result (ground arith) (ground arith)

-- A stream on which the second frame is lost, and a stream after it.
abbrev streams : List Happening
streams =
    puts (heartbeat (pos 0) (pos 2))
    ∷ puts (heartbeat (pos 1) (pos 1))
    ∷ opens (record { dial = none; connect = none; send_hello = none; first = ok (welcome 5) })
    ∷ pumps true
    ∷ pumps false
    ∷ closes
    ∷ puts (heartbeat (pos 0) (pos 2))
    ∷ opens (record { dial = none; connect = none; send_hello = none; first = ok (welcome 6) })
    ∷ pumps true
    ∷ []

run-Kept_example : Kept (Connection.run streams new_link)
run-Kept_example = run-Kept streams new_link new_link-Kept
