-- ===== src/Sink/Steps.antt =====
-- internal/hub/sinks.go, Write and flushTask: the text of a log before and after each action.
use crawler_lite.Sink.Shifts.{
  same_id, other_id, lines_in-put_buffer, lines_in-put_buffer_other, writes-text, takes-text,
}
use mathlib.Core.List.{append_assoc, append-nil}
use crawler_lite.Prelude.Base.{
  ℕ, ◌<◌, ◌^◌, ◌==◌, ◌≡◌, refl, sym, ap, ◌∙◌, inl, inr, true, ◌&&◌, ◌||◌, not, Option, none, some,
  [], ◌∷◌, ◌++◌, Bool-cases, arith,
}
use crawler_lite.Prelude.Text.{Str}
use crawler_lite.Hub.Model.{LogLine}
use crawler_lite.Sink.Model.{
  LogBuffer, Requests, World, find_buffer, find_object, put_object, log_key,
}
use crawler_lite.Sink.Log.{
  or_empty, jsonl, bytes_of, append_jsonl, try_download, take_lines, merged, put_back, store_lines,
}
use crawler_lite.Sink.Flow.{
  Action, writes, takes, stores, Flow, taken, act, is_safe, flight_lines, buffer_lines, text_of,
  written,
}
use crawler_lite.Sink.Lookup.{
  find-put_object, find-put_object_other, jsonl-append, log_key-injective,
}

merged-lines :
    (b : LogBuffer) (o : Option LogBuffer) → (merged b o).lines ≡ b.lines ++ (or_empty o).lines
merged-lines b none = sym (append-nil b.lines)
merged-lines b (some c) = refl

-- Lines that go back into the buffer stand before those written since.
put_back-lines :
    (k t : ℕ) (b : LogBuffer) (w : World)
    → buffer_lines t (put_back k b w) ≡ flight_lines t (some (k, b)) ++ buffer_lines t w
unfolding put_back
put_back-lines k t b w = elim (Bool-cases (k == t)) [
  | inl e ↦ rw e (
      lines_in-put_buffer k t (merged b (find_buffer k w.buffers)) w.buffers e
      ∙ merged-lines b (find_buffer k w.buffers)
      ∙ ap (λ j. b.lines ++ buffer_lines j w) (same_id k t e))
  | inr e ↦ rw e (lines_in-put_buffer_other k t _ w.buffers e)
]

-- The objects after a successful upload.
abbrev appended : ℕ → LogBuffer → World → World
appended k b w = record w {
  objects =
      put_object (log_key k) (bytes_of (find_object (log_key k) w.objects) ++ jsonl b.lines)
        w.objects;
}

appended-text :
    (k t : ℕ) (b : LogBuffer) (w : World)
    → k < 2 ^ 63
    → t < 2 ^ 63
    → bytes_of (find_object (log_key t) (appended k b w).objects) ++ jsonl (buffer_lines t w)
      ≡ text_of t (record { world = w; flight = some (k, b) })
appended-text k t b w small bound = elim (Bool-cases (k == t)) [
  | inl e ↦ rw e (rw (← same_id k t e, find-put_object, jsonl-append, append_assoc) refl)
  | inr e ↦ rw e (
      ap (λ o. bytes_of o ++ jsonl (buffer_lines t w))
        (find-put_object_other (log_key k) (log_key t) _ w.objects
          (λ q. other_id k t e (log_key-injective k t small bound q))))
]

-- The task of a flush that is under way is an int64.
unfoldable pub IsSmall : Option (ℕ × LogBuffer) → Type 0
IsSmall none = Unit {0}
IsSmall (some (k, b)) = k < 2 ^ 63

both_ok :
    (q : Requests)
    → q.upload_ok ≡ true
    → (not q.upload_ok || (q.stat_ok && q.download_ok)) ≡ true
    → (q.stat_ok && q.download_ok) ≡ true
both_ok q e safe = ground (arith, e, safe)

store_lines-text :
    (q : Requests) (k t : ℕ) (b : LogBuffer) (w : World)
    → (not q.upload_ok || (q.stat_ok && q.download_ok)) ≡ true
    → k < 2 ^ 63
    → t < 2 ^ 63
    → text_of t (record { world = store_lines q k b w; flight = none })
      ≡ text_of t (record { world = w; flight = some (k, b) })
unfolding store_lines
store_lines-text q k t b w safe small bound = elim (Bool-cases q.upload_ok) [
  | inl e ↦
      rw (store_lines, append_jsonl, e, try_download, both_ok q e safe)
        (appended-text k t b w small bound)
  | inr e ↦
      rw (store_lines, append_jsonl, e)
        (ap (λ ls. bytes_of (find_object (log_key t) w.objects) ++ jsonl ls)
          (put_back-lines k t b w))
]

stores_from-text :
    (encode : LogLine → Str) (t : ℕ) (q : Requests) (w : World) (o : Option (ℕ × LogBuffer))
    → is_safe (stores q) ≡ true
    → IsSmall o
    → t < 2 ^ 63
    → text_of t (act encode (stores q) (record { world = w; flight = o }))
      ≡ text_of t (record { world = w; flight = o })
unfolding act IsSmall
stores_from-text encode t q w none safe small bound = refl
stores_from-text encode t q w (some (k, b)) safe small bound =
    store_lines-text q k t b w safe small bound

-- An action adds the lines that it writes to the end of the text, and changes nothing else.
pub act-text :
    (encode : LogLine → Str) (t : ℕ) (a : Action) (f : Flow)
    → is_safe a ≡ true
    → IsSmall f.flight
    → t < 2 ^ 63
    → text_of t (act encode a f) ≡ text_of t f ++ jsonl (written encode t (a ∷ []))
act-text encode t (writes p l) f safe small bound = writes-text encode t p l f
act-text encode t (takes k) f safe small bound =
    takes-text encode t k f ∙ sym (append-nil (text_of t f))
act-text encode t (stores q) f safe small bound =
    stores_from-text encode t q f.world f.flight safe small bound ∙ sym (append-nil (text_of t f))

taken-IsSmall : (k : ℕ) (r : Option LogBuffer × World) → k < 2 ^ 63 → IsSmall (taken k r).flight
unfolding IsSmall
taken-IsSmall k (none, w) h = tt
taken-IsSmall k (some b, w) h = h

takes-IsSmall :
    (encode : LogLine → Str) (k : ℕ) (w : World) (o : Option (ℕ × LogBuffer))
    → k < 2 ^ 63
    → IsSmall o
    → IsSmall (act encode (takes k) (record { world = w; flight = o })).flight
unfolding act
takes-IsSmall encode k w none h small = taken-IsSmall k (take_lines k w) h
takes-IsSmall encode k w (some x) h small = small

stores-IsSmall :
    (encode : LogLine → Str) (q : Requests) (w : World) (o : Option (ℕ × LogBuffer))
    → IsSmall (act encode (stores q) (record { world = w; flight = o })).flight
unfolding act IsSmall
stores-IsSmall encode q w none = tt
stores-IsSmall encode q w (some x) = tt

pub act-IsSmall :
    (encode : LogLine → Str) (a : Action) (f : Flow)
    → is_safe a ≡ true
    → IsSmall f.flight
    → IsSmall (act encode a f).flight
unfolding act
act-IsSmall encode (writes p l) f safe small = small
act-IsSmall encode (takes k) f safe small =
    takes-IsSmall encode k f.world f.flight (ground (arith, safe)) small
act-IsSmall encode (stores q) f safe small = stores-IsSmall encode q f.world f.flight
