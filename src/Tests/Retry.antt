-- ===== src/Tests/Retry.antt =====
-- internal/task/retry.go on concrete policies.
use crawler_lite.Prelude.Base.{◌*◌, ◌≡◌, refl, ◌⊎◌, true, false, [], ◌∷◌, arith}
use crawler_lite.Prelude.Int.{pos, wrap64, ◌*ℤ◌}
use crawler_lite.Prelude.Text.{codes, ascii_only, normal, str_eq}
use crawler_lite.Prelude.Json.{
  finite, float64, string, array, object, nil, cons, Fields, end, field, get,
}
use crawler_lite.Retry.{RetryPolicy, retry_default, backoff_for, decide, policy_from_spider_config}
use crawler_lite.Retry.Number.{min_int64, number_as_int}
use crawler_lite.Retry.Parsing.{IsValid, policy_from_spider_config-IsValid, base_delay_exact}
use crawler_lite.Retry.Decision.{Retries, decide_lem}
use crawler_lite.Retry.Delay.{capped, backoff_for_lem, backoff_for_overflow}

abbrev block : Fields
block = field (codes "max_attempts") (float64 (finite false 3 0)) (
    field (codes "backoff") (string (codes "Linear")) (
      field (codes "base_delay_s") (float64 (finite false 45 0)) (
        field (codes "retry_on")
          (array (cons (string (codes "Timeout")) (cons (string (codes "captcha")) nil))) end)))

abbrev pub config : Fields
config = field (codes "retry") (object block) end

abbrev linear_policy : RetryPolicy
linear_policy = record {
  max_attempts = pos 5;
  backoff_kind = codes "linear";
  base_delay = pos 30_000_000_000;
  max_delay = pos 100_000_000_000;
  retry_on = codes "timeout" ∷ [];
}

abbrev pub parsed : RetryPolicy
parsed = record {
  max_attempts = pos 3;
  backoff_kind = codes "linear";
  base_delay = pos 45_000_000_000;
  max_delay = pos 1_800_000_000_000;
  retry_on = codes "timeout" ∷ [];
}

pub parsed_test : policy_from_spider_config ascii_only config ≡ parsed
unfolding policy_from_spider_config get str_eq number_as_int normal wrap64 ◌*ℤ◌
parsed_test = refl

config-IsValid_example : IsValid (policy_from_spider_config ascii_only config)
config-IsValid_example = policy_from_spider_config-IsValid ascii_only config

base_delay_example :
    (policy_from_spider_config ascii_only config).base_delay ≡ pos (45 * 1_000_000_000)
unfolding get str_eq
base_delay_example = base_delay_exact ascii_only config block 45 refl refl (omega arith)

decide_example :
    (Retries ascii_only linear_policy (pos 2) (codes " TIMEOUT")
      × (decide ascii_only linear_policy (pos 2) (codes " TIMEOUT")
          ≡ (true, backoff_for linear_policy (pos 2))))
    ⊎ ((¬ Retries ascii_only linear_policy (pos 2) (codes " TIMEOUT"))
        × (decide ascii_only linear_policy (pos 2) (codes " TIMEOUT") ≡ (false, pos 0)))
decide_example = decide_lem ascii_only linear_policy (pos 2) (codes " TIMEOUT")

decide_test :
    decide ascii_only linear_policy (pos 2) (codes " TIMEOUT") ≡ (true, pos 60_000_000_000)
unfolding decide backoff_for normal str_eq wrap64 ◌*ℤ◌
decide_test = refl

backoff_for_example : backoff_for linear_policy (pos 3) ≡ capped linear_policy (3 * 30_000_000_000)
unfolding str_eq
backoff_for_example =
    backoff_for_lem linear_policy 30_000_000_000 3 refl (omega arith) (omega arith) (omega arith)
      (omega arith) (omega arith)

delay_overflow_example : backoff_for retry_default (pos 31) ≡ min_int64
delay_overflow_example =
    backoff_for_overflow retry_default 30_000_000_000 31 (λ e. cc) refl (omega arith) (omega arith)
      (omega arith) (omega arith) (ground arith)
