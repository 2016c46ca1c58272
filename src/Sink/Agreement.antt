-- ===== src/Sink/Agreement.antt =====
-- internal/hub/sinks.go and internal/repository/artifacts.go: the index row of a task against its stored log.
use crawler_lite.Sink.Index.{index_of, bytes_in, put_index-bytes, length-jsonl}
use crawler_lite.Prelude.Base.{
  Option-cases, ℕ, ◌==◌, ◌<◌, ◌^◌, ◌≡◌, refl, sym, ap, ◌∙◌, inl, inr, true, ◌&&◌, ◌||◌, not,
  Bool-cases, Option, none, some, List, [], ◌∷◌, ◌++◌, All, length, length-append, arith,
}
use crawler_lite.Sink.Model.{
  find_buffer, LogBuffer, LogIndexUpsert, Requests, World, find_object, put_object, log_key,
}
use crawler_lite.Prelude.Int.{ℤ}
use crawler_lite.Prelude.Text.{Str}
use crawler_lite.Hub.Model.{LogLine}
use crawler_lite.Sink.Log.{
  bytes_added, jsonl, bytes_of, store_lines, append_jsonl, try_download, put_back, take_lines,
  write_log,
}
use crawler_lite.Sink.Flow.{Action, writes, takes, stores, Flow, act, run, is_safe, taken}
use crawler_lite.Sink.Lookup.{find-put_object, find-put_object_other, log_key-injective}
use crawler_lite.Sink.Steps.{IsSmall, act-IsSmall}
use crawler_lite.Sink.Keeping.{IsSafe}
use crawler_lite.Sink.Rows.{find_index}

-- The bytes in the row of a task are those of its stored log.
abbrev pub Agrees : (ℕ → ℤ) → ℕ → World → Type 0
Agrees clock t w =
    bytes_in (find_index t (index_of clock w.indexed))
    ≡ length (bytes_of (find_object (log_key t) w.objects))

-- Two worlds with the same objects and index rows.
abbrev SameStored : World → World → Type 0
SameStored v w = (v.objects ≡ w.objects) × (v.indexed ≡ w.indexed)

same-Agrees :
    (clock : ℕ → ℤ) (t : ℕ) (v w : World) → SameStored w v → Agrees clock t v → Agrees clock t w
same-Agrees clock t v w (o, i) h = rw (o, i) h

taken-SameStored :
    (k : ℕ) (r : Option LogBuffer × World) (w : World)
    → SameStored r.1 w
    → SameStored (taken k r).world w
taken-SameStored k (none, v) w h = h
taken-SameStored k (some b, v) w h = h

take_lines-SameStored : (k : ℕ) (w : World) → SameStored (take_lines k w).1 w
unfolding take_lines
take_lines-SameStored k w = elim (Option-cases (find_buffer k w.buffers)) [
  | inl e ↦ rw (take_lines, e) (refl, refl)
  | inr (b, e) ↦ buffer_taken b b.lines refl e
]
  where
    buffer_taken :
        (b : LogBuffer) (ls : List Str)
        → b.lines ≡ ls
        → find_buffer k w.buffers ≡ some b
        → SameStored (take_lines k w).1 w
    buffer_taken b [] q e = rw (take_lines, e, q) (refl, refl)
    buffer_taken b (l ∷ ls) q e = rw (take_lines, e, q) (refl, refl)

both_ok :
    (q : Requests)
    → q.upload_ok ≡ true
    → (not q.upload_ok || (q.stat_ok && q.download_ok)) ≡ true
    → (q.stat_ok && q.download_ok) ≡ true
both_ok q e safe = ground (arith, e, safe)

-- The object and the row after a successful upload.
stored-Agrees :
    (clock : ℕ → ℤ) (k t : ℕ) (b : LogBuffer) (w : World) (u : LogIndexUpsert)
    → u.task_id ≡ k
    → u.add_bytes ≡ bytes_added b.lines
    → k < 2 ^ 63
    → t < 2 ^ 63
    → Agrees clock t w
    → Agrees clock t (record w {
      objects =
          put_object
            (log_key k)
            (bytes_of (find_object (log_key k) w.objects) ++ jsonl b.lines)
            w.objects;
      indexed = u ∷ w.indexed;
    })
unfolding index_of
stored-Agrees clock k t b w u same bytes small bound h =
    put_index-bytes t (clock (length w.indexed)) u (index_of clock w.indexed)
    ∙ rw (same, bytes)
        (elim (Bool-cases (k == t)) [
          | inl e ↦
              let key : k ≡ t = ground (arith, e) in
              rw (e, key, find-put_object, h, length-append, length-jsonl) refl
          | inr e ↦ rw e (
              h
              ∙ ap (λ o. length (bytes_of o))
                  (sym (
                    find-put_object_other (log_key k) (log_key t) _ w.objects
                      (λ q. ground (arith, e, log_key-injective k t small bound q)))))
        ])

store_lines-Agrees :
    (clock : ℕ → ℤ) (q : Requests) (k t : ℕ) (b : LogBuffer) (w : World)
    → is_safe (stores q) ≡ true
    → k < 2 ^ 63
    → t < 2 ^ 63
    → Agrees clock t w
    → Agrees clock t (store_lines q k b w)
unfolding store_lines index_of
store_lines-Agrees clock q k t b w safe small bound h = elim (Bool-cases q.upload_ok) [
  | inl e ↦
      rw (store_lines, append_jsonl, e, try_download, both_ok q e safe)
        (stored-Agrees clock k t b w _ refl refl small bound h)
  | inr e ↦ rw (store_lines, append_jsonl, e, put_back) h
]

act-Agrees :
    (encode : LogLine → Str) (clock : ℕ → ℤ) (t : ℕ) (a : Action) (w : World)
    (o : Option (ℕ × LogBuffer))
    → IsSafe a
    → IsSmall o
    → t < 2 ^ 63
    → Agrees clock t w
    → Agrees clock t (act encode a (record { world = w; flight = o })).world
unfolding act IsSmall write_log
act-Agrees encode clock t (writes p l) w o safe small bound h = h
act-Agrees encode clock t (takes k) w (some x) safe small bound h = h
act-Agrees encode clock t (takes k) w none safe small bound h =
    same-Agrees clock t w (taken k (take_lines k w)).world
      (taken-SameStored k (take_lines k w) w (take_lines-SameStored k w)) h
act-Agrees encode clock t (stores q) w none safe small bound h = h
act-Agrees encode clock t (stores q) w (some (k, b)) safe small bound h =
    store_lines-Agrees clock q k t b w safe small bound h

-- Whatever the interleaving of writes with the two halves of flushes, and whether uploads succeed or
-- fail: where the bytes in the index row of a task are those of its stored log, they still are. The
-- conditions are that no upload succeeds after a stat or a download that failed, and that the statements
-- on the index succeed.
pub run-Agrees :
    (encode : LogLine → Str) (clock : ℕ → ℤ) (t : ℕ) (actions : List Action) (f : Flow)
    → All IsSafe actions
    → IsSmall f.flight
    → t < 2 ^ 63
    → Agrees clock t f.world
    → Agrees clock t (run encode actions f).world
unfolding run
run-Agrees encode clock t [] f safe small bound h = h
run-Agrees encode clock t (a ∷ rest) f (safe, later) small bound h =
    run-Agrees encode clock t rest (act encode a f) later (act-IsSmall encode a f safe small) bound
      (act-Agrees encode clock t a f.world f.flight safe small bound h)
