-- ===== src/Runner/Refused.antt =====
-- internal/runner/executor.go and internal/task/retry.go: the observers under any turns of the pumps, and
-- the classes that no policy retries.
use crawler_lite.Prelude.Int.{ℤ, pos}
use crawler_lite.Prelude.Text.{
  contains_iff, str_eq_iff, Str, Unicode, codes, normal, contains, str_eq,
}
use mathlib.Core.Path.{subst}
use mathlib.Core.Bool.{false≢true}
use crawler_lite.Prelude.Base.{
  ℕ, ◌≡◌, refl, sym, ◌∙◌, inl, inr, true, false, Option, List, [], ◌∷◌, All, Bool-cases, arith,
}
use crawler_lite.Prelude.Json.{Fields}
use crawler_lite.Retry.{decide, policy_from_spider_config, retryable_classes}
use crawler_lite.Retry.Parsing.{IsRetryable, policy_from_spider_config-IsValid}
use crawler_lite.Retry.Decision.{decide-Retries}
use crawler_lite.Runner.Outcome.{
  ContextErr, Event, log_event, item_event, shot_event, captcha_event, other_event, garbled, Pump,
  on_event, pump_events, classify_outcome, is_error, emit,
}
use crawler_lite.Runner.Executor.{Output, on_fd3, on_stdout, on_stderr, pump_output, user_log}

-- The lines of the event stream.
pub events_of : List Output → List (ℤ × Event)
events_of [] = []
events_of (on_fd3 now e ∷ rest) = (now, e) ∷ events_of rest
events_of (on_stdout now line ∷ rest) = events_of rest
events_of (on_stderr now line ∷ rest) = events_of rest

-- Two pumps whose observers hold the same.
abbrev SameSeen : Pump → Pump → Type 0
SameSeen p q =
    (p.seen ≡ q.seen) × (p.captcha_message ≡ q.captcha_message) × (p.last_error ≡ q.last_error)

on_event-SameSeen :
    (task : ℕ) (now : ℤ) (e : Event) (p q : Pump)
    → SameSeen p q
    → SameSeen (on_event task now e p) (on_event task now e q)
unfolding on_event
on_event-SameSeen task now (log_event level m ts tb) p q h = elim (Bool-cases (is_error level)) [
  | inl e ↦ let (a, b, _) = h in rw e (a, b, refl)
  | inr e ↦ rw e h
]
on_event-SameSeen task now (item_event payload) p q h = h
on_event-SameSeen task now (shot_event name key url bytes width height) p q h = h
on_event-SameSeen task now (captcha_event m) p q (a, b, c) = (refl, refl, c)
on_event-SameSeen task now (other_event type) p q h = h
on_event-SameSeen task now garbled p q h = h

-- However the pumps take turns, the observers see the event stream.
pub pump_output-SameSeen :
    (task : ℕ) (lines : List Output) (p q : Pump)
    → SameSeen p q
    → SameSeen (pump_output task lines p) (pump_events task (events_of lines) q)
unfolding pump_output pump_events events_of
pump_output-SameSeen task [] p q h = h
pump_output-SameSeen task (on_fd3 now e ∷ rest) p q h =
    pump_output-SameSeen task rest (on_event task now e p) (on_event task now e q)
      (on_event-SameSeen task now e p q h)
pump_output-SameSeen task (on_stdout now line ∷ rest) p q h =
    pump_output-SameSeen task rest (emit (user_log task now (codes "INFO") line) p) q h
pump_output-SameSeen task (on_stderr now line ∷ rest) p q h =
    pump_output-SameSeen task rest (emit (user_log task now (codes "ERROR") line) p) q h

pub classify-SameSeen :
    (parent_ctx run_ctx : ContextErr) (wait_err : Option Str) (p q : Pump)
    → SameSeen p q
    → classify_outcome parent_ctx run_ctx wait_err p.seen p.captcha_message p.last_error
      ≡ classify_outcome parent_ctx run_ctx wait_err q.seen q.captcha_message q.last_error
classify-SameSeen parent_ctx run_ctx wait_err p q (a, b, c) = cc

-- No policy of a spider retries a class that is not retryable.
abbrev pub NeverRetried : Unicode → Str → Type 0
NeverRetried u class =
    (config : Fields) (attempt : ℤ)
    → decide u (policy_from_spider_config u config) attempt class ≡ (false, pos 0)

All-contains : (xs : List Str) (s : Str) → All IsRetryable xs → contains xs s ≡ true → IsRetryable s
All-contains [] s h e = absurd (false≢true e)
All-contains (x ∷ xs) s (k, h) e = elim (Bool-cases (str_eq x s)) [
  | inl same ↦ subst IsRetryable ((str_eq_iff x s).0 same) k
  | inr other ↦ All-contains xs s h (sym (rw other refl) ∙ e)
]

retryable-contains : (s : Str) → IsRetryable s → contains retryable_classes s ≡ true
retryable-contains s h = ground (
  arith,
  str_eq_iff (codes "timeout") s,
  str_eq_iff (codes "exit") s,
  str_eq_iff (codes "deps") s,
  str_eq_iff (codes "build_assign") s,
)

pub not_retryable :
    (u : Unicode) (class : Str)
    → contains retryable_classes (normal u class) ≡ false
    → NeverRetried u class
not_retryable u class h config attempt =
    let policy = policy_from_spider_config u config in
    elim (decide-Retries u policy attempt class) [
      | inl e ↦ e
      | inr r ↦ absurd (
          false≢true (
            sym h
            ∙ retryable-contains (normal u class) (
                All-contains policy.retry_on (normal u class)
                  (policy_from_spider_config-IsValid u config).known_classes
                  ((contains_iff policy.retry_on (normal u class)).1 r.listed))))
    ]
