-- ===== src/Runner/Observers.antt =====
-- What the observers hold after the event stream, against a reading of the stream as a whole.
use crawler_lite.Prelude.Base.{
  ℕ, ◌≡◌, refl, Bool, true, false, Option, none, some, List, [], ◌∷◌, arith, if◌then◌else◌,
}
use crawler_lite.Prelude.Int.{ℤ}
use crawler_lite.Prelude.Text.{Str}
use crawler_lite.Runner.Outcome.{
  Event, log_event, captcha_event, Pump, is_error, full_message, on_event, pump_events, fresh,
}

-- The message of the last captcha event, where there is one.
abbrev pub last_captcha : List (ℤ × Event) → Option Str
last_captcha [] = none
last_captcha ((now, captcha_event m) ∷ es) = elim (last_captcha es) [
  | none ↦ some m
  | some k ↦ some k
]
last_captcha ((now, _) ∷ es) = last_captcha es

-- The text of the last log event of level ERROR, where there is one.
abbrev pub last_failure : List (ℤ × Event) → Option Str
last_failure [] = none
last_failure ((now, log_event level m ts traceback) ∷ es) = elim (last_failure es) [
  | none ↦ if is_error level then some (full_message m traceback) else none
  | some k ↦ some k
]
last_failure ((now, _) ∷ es) = last_failure es

abbrev pub seen_of : Option Str → Bool → Bool
seen_of none b = b
seen_of (some m) b = true

abbrev pub or_else : Option Str → Str → Str
or_else none d = d
or_else (some m) d = m

pump_events-captcha :
    (task : ℕ) (es : List (ℤ × Event)) (p : Pump)
    → ((pump_events task es p).seen ≡ seen_of (last_captcha es) p.seen)
      × ((pump_events task es p).captcha_message ≡ or_else (last_captcha es) p.captcha_message)
unfolding pump_events
pump_events-captcha task [] p = (refl, refl)
pump_events-captcha task ((now, log_event level m ts tb) ∷ es) p =
    ground (arith, pump_events-captcha task es (on_event task now (log_event level m ts tb) p))
pump_events-captcha task ((now, captcha_event m) ∷ es) p =
    ground (arith, pump_events-captcha task es (on_event task now (captcha_event m) p))
pump_events-captcha task ((now, e) ∷ es) p = pump_events-captcha task es (on_event task now e p)

pump_events-failure :
    (task : ℕ) (es : List (ℤ × Event)) (p : Pump)
    → (pump_events task es p).last_error ≡ or_else (last_failure es) p.last_error
unfolding pump_events
pump_events-failure task [] p = refl
pump_events-failure task ((now, log_event level m ts tb) ∷ es) p =
    ground (arith, pump_events-failure task es (on_event task now (log_event level m ts tb) p))
pump_events-failure task ((now, e) ∷ es) p = pump_events-failure task es (on_event task now e p)

-- After any stream of events the observers hold exactly: whether there was a captcha event, the
-- message of the last one, and the text (headline and traceback) of the last ERROR log line.
pub observers :
    (task : ℕ) (es : List (ℤ × Event))
    → let p = pump_events task es fresh in
      (p.seen ≡ seen_of (last_captcha es) false)
      × (p.captcha_message ≡ or_else (last_captcha es) [])
      × (p.last_error ≡ or_else (last_failure es) [])
observers task es = (
  (pump_events-captcha task es fresh).0,
  (pump_events-captcha task es fresh).1,
  pump_events-failure task es fresh,
)
