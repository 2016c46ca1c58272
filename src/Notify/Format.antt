-- ===== src/Notify/Format.antt =====
-- internal/notify/notify.go, format: the title and the body of a notification.
use crawler_lite.Prelude.Base.{
  ℕ, zero, suc, ◌+◌, ◌/◌, ◌%◌, ◌&&◌, List, [], ◌∷◌, ◌++◌, ltb, if◌then◌else◌,
}
use crawler_lite.Prelude.Int.{ℤ, pos, negsuc, ltb_ℤ, is_zero}
use crawler_lite.Prelude.Text.{Str, codes, is_empty}
use crawler_lite.Task.Model.{Status, succeeded, failed, timeout, captcha_blocked, Event}
use crawler_lite.Notify.Model.{Env, token}

-- The decimal digits of a number below 10 to the fuel.
unfoldable pub digits : ℕ → ℕ → Str
digits zero n = []
digits (suc fuel) n =
    let rest = digits fuel (n / 10) in
    if ltb n 10 then (b'0' + n) ∷ [] else rest ++ ((b'0' + n % 10) ∷ [])

-- %d of an int64: 2 ^ 63 has 19 digits.
unfoldable pub decimal : ℕ → Str
unfolding digits
decimal n = digits 20 n

unfoldable pub decimal_ℤ : ℤ → Str
unfolding decimal
decimal_ℤ (pos n) = decimal n
decimal_ℤ (negsuc n) = b'-' ∷ decimal (suc n)

unfoldable pub verb_of : Status → Str
verb_of captcha_blocked = codes "blocked by captcha"
verb_of failed = codes "failed"
verb_of timeout = codes "timed out"
verb_of succeeded = codes "succeeded"
verb_of s = token s

abbrev pub line : List Str → Str
line [] = 10 ∷ []
line (s ∷ ss) = s ++ line ss

abbrev pub spider_label : Event → Str
spider_label ev =
    if is_empty ev.spider_name then codes "id=" ++ decimal ev.spider_id else ev.spider_name

abbrev pub attempt_line : Event → Str
attempt_line ev =
    let count = decimal_ℤ ev.attempt ++ codes "/" ++ decimal_ℤ ev.max_attempts in
    if ltb_ℤ (pos 0) ev.attempt && ltb_ℤ (pos 0) ev.max_attempts
    then if ev.will_retry
      then line (codes "Attempt " ∷ count ∷ codes " — retrying" ∷ [])
      else if ltb_ℤ (pos 1) ev.max_attempts
      then line (codes "Attempt " ∷ count ∷ codes " — giving up" ∷ [])
      else []
    else []

-- The title and the body.
unfoldable pub format : Env → Event → Str × Str
unfolding decimal decimal_ℤ verb_of
format env ev =
    let verb = verb_of ev.kind in
    let spider = spider_label ev in
    (
      codes "Task #" ++ decimal ev.task_id ++ codes " " ++ verb ++ codes " — " ++ spider,
      line (codes "Task #" ∷ decimal ev.task_id ∷ codes " " ∷ verb ∷ [])
          ++ line
              (codes "Spider: " ∷ spider ∷ codes " (id=" ∷ decimal ev.spider_id ∷ codes ")" ∷ [])
          ++ (if is_empty ev.error_message
              then []
              else line (codes "Error: " ∷ ev.error_message ∷ []))
          ++ attempt_line ev
          ++ (if is_zero ev.finished_at
              then []
              else line (codes "Time: " ∷ env.format_time ev.finished_at ∷ [])),
    )
