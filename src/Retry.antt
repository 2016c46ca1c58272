-- ===== src/Retry.antt =====
-- internal/task/retry.go: the retry policy, its parser and its decision. A duration is an int64
-- number of nanoseconds.
pub mod Number
pub mod Parsing
pub mod Decision
pub mod Delay
use crawler_lite.Prelude.Base.{
  ◌*◌, ◌^◌, ◌≡◌, refl, Bool, true, false, ◌&&◌, ◌||◌, List, [], ◌∷◌, Option, none, some,
  if◌then◌else◌,
}
use crawler_lite.Prelude.Int.{ℤ, pos, pos_part, ◌-ℤ◌, ◌*ℤ◌, ltb_ℤ, leb_ℤ, wrap64}
use crawler_lite.Prelude.Text.{Str, codes, str_eq, is_empty, contains, Unicode, to_lower, normal}
use crawler_lite.Prelude.Json.{Value, string, array, object, Items, nil, cons, Fields, get}
use Number.{number_as_int, of_int64, mul_pow2, to_int64}

pub record RetryPolicy : Type 0 where
  pub max_attempts : ℤ
  pub backoff_kind : Str
  pub base_delay : ℤ
  pub max_delay : ℤ
  pub retry_on : List Str

abbrev pub second : ℤ
second = pos 1_000_000_000

abbrev pub retry_default : RetryPolicy
retry_default = record {
  max_attempts = pos 1;
  backoff_kind = codes "exp";
  base_delay = pos 30_000_000_000;
  max_delay = pos 1_800_000_000_000;
  retry_on = codes "timeout" ∷ codes "exit" ∷ [];
}

abbrev pub retryable_classes : List Str
retryable_classes = codes "timeout" ∷ codes "exit" ∷ codes "deps" ∷ codes "build_assign" ∷ []

-- The fields of the policy, one by one.
set_max_attempts : Option ℤ → RetryPolicy → RetryPolicy
set_max_attempts none p = p
set_max_attempts (some v) p =
    if leb_ℤ (pos 1) v && leb_ℤ v (pos 100) then record p { max_attempts = v } else p

set_backoff : Unicode → Value → RetryPolicy → RetryPolicy
unfolding to_lower
set_backoff u (string v) p =
    let kind = to_lower u v in
    if str_eq kind (codes "exp") || str_eq kind (codes "exponential")
    then record p { backoff_kind = codes "exp" }
    else if str_eq kind (codes "linear")
    then record p { backoff_kind = codes "linear" }
    else p
set_backoff u _ p = p

set_base_delay : Option ℤ → RetryPolicy → RetryPolicy
set_base_delay none p = p
set_base_delay (some v) p =
    if leb_ℤ (pos 0) v then record p { base_delay = wrap64 (wrap64 v *ℤ second) } else p

set_max_delay : Option ℤ → RetryPolicy → RetryPolicy
set_max_delay none p = p
set_max_delay (some v) p =
    if leb_ℤ (pos 0) v then record p { max_delay = wrap64 (wrap64 v *ℤ second) } else p

-- The loop over `retry_on`.
retry_classes : Unicode → Items → List Str
retry_classes u nil = []
retry_classes u (cons (string v) items) =
    let s = normal u v in
    let out = retry_classes u items in if contains retryable_classes s then s ∷ out else out
retry_classes u (cons _ items) = retry_classes u items

set_retry_on : Unicode → Value → RetryPolicy → RetryPolicy
set_retry_on u (array list) p = record p { retry_on = retry_classes u list }
set_retry_on u _ p = p

policy_from_block : Unicode → Value → RetryPolicy
unfolding set_max_attempts set_backoff set_base_delay set_max_delay set_retry_on
policy_from_block u (object raw) = set_retry_on u (get raw (codes "retry_on")) (
    set_max_delay (number_as_int (get raw (codes "max_delay_s"))) (
      set_base_delay (number_as_int (get raw (codes "base_delay_s"))) (
        set_backoff u (get raw (codes "backoff"))
          (set_max_attempts (number_as_int (get raw (codes "max_attempts"))) retry_default))))
policy_from_block u _ = retry_default

unfoldable pub policy_from_spider_config : Unicode → Fields → RetryPolicy
unfolding policy_from_block retry_classes
policy_from_spider_config u cfg = policy_from_block u (get cfg (codes "retry"))

-- The exponent `attempt - 1`, held to [0, 30].
exponent : ℤ → ℤ
exponent attempt =
    let exp = wrap64 (attempt -ℤ pos 1) in
    if ltb_ℤ exp (pos 0) then pos 0 else if ltb_ℤ (pos 30) exp then pos 30 else exp

-- The delay before the cap.
uncapped : RetryPolicy → ℤ → ℤ
uncapped p attempt =
    if str_eq p.backoff_kind (codes "linear")
    then wrap64 (attempt *ℤ p.base_delay)
    else to_int64 (mul_pow2 (of_int64 p.base_delay) (pos_part (exponent attempt)))

unfoldable pub backoff_for : RetryPolicy → ℤ → ℤ
unfolding uncapped exponent
backoff_for p attempt =
    let d = uncapped p attempt in
    if leb_ℤ p.base_delay (pos 0)
    then pos 0
    else if ltb_ℤ (pos 0) p.max_delay && ltb_ℤ p.max_delay d
    then p.max_delay
    else d

unfoldable pub decide : Unicode → RetryPolicy → ℤ → Str → Bool × ℤ
decide u p attempt err_class =
    let class = normal u err_class in
    if leb_ℤ p.max_attempts (pos 1)
    then (false, pos 0)
    else if leb_ℤ p.max_attempts attempt
    then (false, pos 0)
    else if is_empty class || str_eq class (codes "captcha")
    then (false, pos 0)
    else if contains p.retry_on class
    then (true, backoff_for p attempt)
    else (false, pos 0)
