-- ===== src/Runner/Outcome.antt =====
-- internal/runner/executor.go: the observers of the event stream, the classification of a run, and the
-- cut of an error text.
use crawler_lite.Prelude.Base.{
  ℕ, zero, suc, ◌-◌, Bool, true, false, ◌&&◌, ◌||◌, Option, none, some, List, [], ◌∷◌, ◌++◌, length,
  take, ltb, leb, ◌==◌, if◌then◌else◌,
}
use crawler_lite.Prelude.Int.{ℤ, pos, wrap32}
use crawler_lite.Prelude.Text.{Str, codes, is_empty}
use crawler_lite.Hub.Model.{TaskState, WorkerMsg, log_line, item, artifact, task_update}

-- What the worker sends as the final update.
pub record Outcome : Type 0 where
  pub state : TaskState
  pub error : Str
  pub error_class : Str

-- The error of a context: nil, Canceled or DeadlineExceeded.
pub data ContextErr : Type 0 where
  live canceled deadline_exceeded : ContextErr

abbrev pub is_canceled : ContextErr → Bool
is_canceled canceled = true
is_canceled _ = false

abbrev pub is_deadline : ContextErr → Bool
is_deadline deadline_exceeded = true
is_deadline _ = false

-- The byte at a position, and whether it starts a rune (is no UTF-8 continuation byte).
abbrev pub byte_at : Str → ℕ → Option ℕ
byte_at [] n = none
byte_at (b ∷ bs) zero = some b
byte_at (b ∷ bs) (suc n) = byte_at bs n

abbrev pub rune_start : ℕ → Bool
rune_start b = ltb b 128 || leb 192 b

abbrev pub starts_at : Str → ℕ → Bool
starts_at s n = elim (byte_at s n) [ none ↦ true | some b ↦ rune_start b ]

-- The loop that backs up to a rune boundary; `none` is the panic on the index -1.
unfoldable pub boundary : Str → ℕ → Option ℕ
boundary s zero = if starts_at s zero then some 0 else none
boundary s (suc n) = let rest = boundary s n in if starts_at s (suc n) then some (suc n) else rest

abbrev pub ellipsis : Str
ellipsis = 0xe2 ∷ 0x80 ∷ 0xa6 ∷ []

-- truncateErr over the bytes of the text.
unfoldable pub truncate_err : Str → ℕ → Option Str
unfolding boundary
truncate_err s n =
    if leb (length s) n
    then some s
    else elim (boundary s n) [ none ↦ none | some k ↦ some (take k s ++ ellipsis) ]

abbrev pub err_limit : ℕ
err_limit = 8192

abbrev pub captcha_outcome : Str → Outcome
captcha_outcome message = record {
  state = TaskState.captcha;
  error = message;
  error_class = codes "captcha";
}

-- classifyOutcome. `wait_err` is the subprocess's wait error, where there is one; `none` is the panic of
-- the cut.
unfoldable pub classify_outcome :
    ContextErr → ContextErr → Option Str → Bool → Str → Str → Option Outcome
classify_outcome parent_ctx run_ctx wait_err seen_captcha captcha_msg last_err =
    if is_canceled parent_ctx
    then some (record { state = TaskState.cancelled; error = []; error_class = [] })
    else if is_deadline run_ctx
    then some (record {
      state = TaskState.timeout;
      error = codes "task timed out";
      error_class = codes "timeout";
    })
    else elim wait_err [
      | some message ↦
          if seen_captcha
          then some (captcha_outcome captcha_msg)
          else elim (truncate_err (if is_empty last_err then message else last_err) err_limit) [
            | none ↦ none
            | some text ↦
                some (record { state = TaskState.failed; error = text; error_class = codes "exit" })
          ]
      | none ↦
          if seen_captcha
          then some (captcha_outcome captcha_msg)
          else some (record { state = TaskState.succeeded; error = []; error_class = [] })
    ]

-- A decoded line of the event stream. A line that does not decode is `garbled`.
pub data Event : Type 0 where
  log_event : Str → Str → ℤ → Str → Event
  item_event : Str → Event
  shot_event : Str → Str → Str → ℤ → ℤ → ℤ → Event
  captcha_event : Str → Event
  other_event : Str → Event
  garbled : Event

-- captchaObs and errorObs, with the messages pushed onto the outbox, the first one first.
pub record Pump : Type 0 where
  pub seen : Bool
  pub captcha_message : Str
  pub last_error : Str
  pub sent : List WorkerMsg

abbrev pub emit : WorkerMsg → Pump → Pump
emit m p = record p { sent = p.sent ++ (m ∷ []) }

-- strings.EqualFold(level, "ERROR"): equal up to the case of ASCII letters. (No other letter folds
-- to one of these.)
abbrev pub fold_rune : ℕ → ℕ
fold_rune c = if leb b'a' c && leb c b'z' then c - 32 else c

abbrev pub equal_fold : Str → Str → Bool
equal_fold [] [] = true
equal_fold [] (d ∷ t) = false
equal_fold (c ∷ s) [] = false
equal_fold (c ∷ s) (d ∷ t) = fold_rune c == fold_rune d && equal_fold s t

abbrev pub is_error : Str → Bool
is_error level = equal_fold level (codes "ERROR")

abbrev pub full_message : Str → Str → Str
full_message message traceback = if is_empty traceback then message else message ++ (10 ∷ traceback)

abbrev pub is_unset : ℤ → Bool
is_unset (pos n) = n == 0
is_unset _ = false

-- pumpEvents on one line, at the time `now`.
unfoldable pub on_event : ℕ → ℤ → Event → Pump → Pump
on_event task now (log_event level message ts traceback) p =
    let text = full_message message traceback in
    emit
      (log_line (record {
        task_id = task;
        ts_ns = if is_unset ts then now else ts;
        level = level;
        message = text;
      }))
      (if is_error level then record p { last_error = text } else p)
on_event task now (item_event payload) p = emit (item task payload) p
on_event task now (shot_event name key url bytes width height) p =
    emit
      (artifact (record {
        task_id = task;
        kind = codes "screenshot";
        name = name;
        storage_key = key;
        url = url;
        width = wrap32 width;
        height = wrap32 height;
        bytes = wrap32 bytes;
      }))
      p
on_event task now (captcha_event message) p =
    emit
      (task_update (record {
        task_id = task;
        state = TaskState.captcha;
        error = message;
        error_class = codes "captcha";
      }))
      (emit
        (log_line (record {
          task_id = task;
          ts_ns = now;
          level = codes "INFO";
          message = codes "[captcha] " ++ message;
        }))
        (record p { seen = true; captcha_message = message }))
on_event task now (other_event type) p = p
on_event task now garbled p = p

-- pumpEvents on the whole stream; each line comes with the time at which it is read.
unfoldable pub pump_events : ℕ → List (ℤ × Event) → Pump → Pump
unfolding on_event
pump_events task [] p = p
pump_events task ((now, e) ∷ es) p = pump_events task es (on_event task now e p)

abbrev pub fresh : Pump
fresh = record { seen = false; captcha_message = []; last_error = []; sent = [] }

-- Run from the start of the subprocess to its result.
unfoldable pub run_result :
    ℕ → List (ℤ × Event) → ContextErr → ContextErr → Option Str → Option Outcome
unfolding pump_events classify_outcome
run_result task events parent_ctx run_ctx wait_err =
    let p = pump_events task events fresh in
    classify_outcome parent_ctx run_ctx wait_err p.seen p.captcha_message p.last_error
