-- ===== src/Sink/Shifts.antt =====
-- internal/hub/sinks.go, Write and the first half of flushTask: the text of a log before and after.
use mathlib.Core.List.{append_assoc, append-nil}
use crawler_lite.Prelude.Base.{
  ℕ, ◌==◌, ◌≡◌, ◌≢◌, refl, sym, ap, ◌∙◌, inl, inr, Bool, true, false, Option, none, some, List, [],
  ◌∷◌, ◌++◌, Bool-cases, Option-cases, arith,
}
use crawler_lite.Prelude.Text.{Str}
use crawler_lite.Hub.Model.{LogLine}
use crawler_lite.Sink.Model.{
  LogBuffer, empty_buffer, World, find_buffer, put_buffer, find_object, log_key,
}
use crawler_lite.Sink.Log.{or_empty, buffered, write_log, jsonl, bytes_of, take_lines}
use crawler_lite.Sink.Flow.{
  writes, takes, Flow, taken, act, flight_lines, buffer_lines, text_of, written,
}
use crawler_lite.Sink.Lookup.{find-put_buffer, find-put_buffer_other, jsonl-append}

pub same_id : (k t : ℕ) → (k == t) ≡ true → k ≡ t
same_id k t e = ground (arith, e)

pub other_id : (k t : ℕ) → (k == t) ≡ false → k ≢ t
other_id k t e = ground (arith, e)

abbrev lines_in : ℕ → List (ℕ × LogBuffer) → List Str
lines_in t bs = (or_empty (find_buffer t bs)).lines

pub lines_in-put_buffer :
    (k t : ℕ) (b : LogBuffer) (bs : List (ℕ × LogBuffer))
    → (k == t) ≡ true
    → lines_in t (put_buffer k b bs) ≡ b.lines
lines_in-put_buffer k t b bs e =
    ap (λ j. lines_in j (put_buffer k b bs)) (sym (same_id k t e))
    ∙ ap (λ o. (or_empty o).lines) (find-put_buffer k b bs)

pub lines_in-put_buffer_other :
    (k t : ℕ) (b : LogBuffer) (bs : List (ℕ × LogBuffer))
    → (k == t) ≡ false
    → lines_in t (put_buffer k b bs) ≡ lines_in t bs
lines_in-put_buffer_other k t b bs e =
    ap (λ o. (or_empty o).lines) (find-put_buffer_other k t b bs e)

buffer_lines-write_log :
    (encode : LogLine → Str) (t : ℕ) (p : Bool) (l : LogLine) (w : World)
    → buffer_lines t (write_log encode p l w)
      ≡ buffer_lines t w ++ written encode t (writes p l ∷ [])
unfolding write_log
buffer_lines-write_log encode t p l w =
    let b = buffered l.level (encode l) (or_empty (find_buffer l.task_id w.buffers)) in
    elim (Bool-cases (l.task_id == t)) [
      | inl e ↦
          lines_in-put_buffer l.task_id t b w.buffers e
          ∙ ap (λ j. lines_in j w.buffers ++ (encode l ∷ [])) (same_id l.task_id t e)
          ∙ rw e refl
      | inr e ↦
          lines_in-put_buffer_other l.task_id t b w.buffers e
          ∙ sym (append-nil (buffer_lines t w))
          ∙ rw e refl
    ]

-- Lines added behind the others come last in the text.
text-append :
    (stored : Str) (fl buf new : List Str)
    → stored ++ jsonl (fl ++ (buf ++ new)) ≡ (stored ++ jsonl (fl ++ buf)) ++ jsonl new
text-append stored fl buf new =
    rw (← append_assoc fl buf new, jsonl-append (fl ++ buf) new, append_assoc stored) refl

pub writes-text :
    (encode : LogLine → Str) (t : ℕ) (p : Bool) (l : LogLine) (f : Flow)
    → text_of t (act encode (writes p l) f)
      ≡ text_of t f ++ jsonl (written encode t (writes p l ∷ []))
unfolding act
writes-text encode t p l f =
    ap
      (λ ls.
        bytes_of (find_object (log_key t) f.world.objects) ++ jsonl (flight_lines t f.flight ++ ls))
      (buffer_lines-write_log encode t p l f.world)
    ∙ text-append _ (flight_lines t f.flight) (buffer_lines t f.world)
        (written encode t (writes p l ∷ []))

found_lines :
    (k t : ℕ) (b : LogBuffer) (w : World)
    → (k == t) ≡ true
    → find_buffer k w.buffers ≡ some b
    → buffer_lines t w ≡ b.lines
found_lines k t b w e q =
    ap (λ j. buffer_lines j w) (sym (same_id k t e)) ∙ ap (λ o. (or_empty o).lines) q

taken_lines :
    (k t : ℕ) (b : LogBuffer) (w : World)
    → find_buffer k w.buffers ≡ some b
    → flight_lines t (some (k, b))
        ++ buffer_lines t (record w { buffers = put_buffer k empty_buffer w.buffers })
      ≡ buffer_lines t w
taken_lines k t b w q = elim (Bool-cases (k == t)) [
  | inl e ↦ rw e (
      ap (λ ls. b.lines ++ ls) (lines_in-put_buffer k t empty_buffer w.buffers e)
      ∙ append-nil b.lines
      ∙ sym (found_lines k t b w e q))
  | inr e ↦ rw e (lines_in-put_buffer_other k t empty_buffer w.buffers e)
]

taken_buffer-text :
    (k t : ℕ) (w : World) (b : LogBuffer) (ls : List Str)
    → b.lines ≡ ls
    → find_buffer k w.buffers ≡ some b
    → text_of t (taken k (take_lines k w)) ≡ text_of t (record { world = w; flight = none })
unfolding take_lines
taken_buffer-text k t w b [] q e = rw (take_lines, e, q) refl
taken_buffer-text k t w b (l ∷ ls) q e =
    rw (take_lines, e, q)
      (ap (λ ls. bytes_of (find_object (log_key t) w.objects) ++ jsonl ls) (taken_lines k t b w e))

-- A flush that begins moves the buffered lines into flight.
taken-text :
    (k t : ℕ) (w : World)
    → text_of t (taken k (take_lines k w)) ≡ text_of t (record { world = w; flight = none })
unfolding take_lines
taken-text k t w = elim (Option-cases (find_buffer k w.buffers)) [
  | inl e ↦ rw (take_lines, e) refl
  | inr (b, e) ↦ taken_buffer-text k t w b b.lines refl e
]

takes_from-text :
    (encode : LogLine → Str) (t k : ℕ) (w : World) (o : Option (ℕ × LogBuffer))
    → text_of t (act encode (takes k) (record { world = w; flight = o }))
      ≡ text_of t (record { world = w; flight = o })
unfolding act
takes_from-text encode t k w none = taken-text k t w
takes_from-text encode t k w (some x) = refl

pub takes-text :
    (encode : LogLine → Str) (t k : ℕ) (f : Flow) → text_of t (act encode (takes k) f) ≡ text_of t f
unfolding act
takes-text encode t k f = takes_from-text encode t k f.world f.flight
