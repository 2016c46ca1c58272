-- ===== src/Retry/Parsing.antt =====
-- What PolicyFromSpiderConfig returns: a valid policy, whatever the configuration holds.
use crawler_lite.Prelude.Base.{
  ℕ, ◌*◌, ◌≤◌, ◌≡◌, refl, ◌⊎◌, inl, inr, true, Option, none, some, All, arith, Bool-cases, false,
}
use crawler_lite.Prelude.Int.{ℤ, pos, ◌≤ℤ◌, ◌*ℤ◌, IsInt64, wrap64, wrap64-eq, wrap64-IsInt64}
use crawler_lite.Prelude.Text.{Str, codes, str_eq_iff, contains, Unicode, normal}
use crawler_lite.Prelude.Json.{
  finite, Value, string, float64, array, object, Items, nil, cons, Fields, get,
}
use crawler_lite.Retry.Number.{number_as_int}
use crawler_lite.Retry.{
  RetryPolicy, retry_default, retryable_classes, set_max_attempts, set_backoff, set_base_delay,
  set_max_delay, retry_classes, set_retry_on, policy_from_block, policy_from_spider_config, second,
}

-- A class that a spider may name under `retry_on`.
abbrev pub IsRetryable : Str → Type 0
IsRetryable s =
    (s ≡ codes "timeout") ⊎ (s ≡ codes "exit") ⊎ (s ≡ codes "deps") ⊎ (s ≡ codes "build_assign")

pub record IsValid (p : RetryPolicy) : Type 0 where
  pub some_attempt : pos 1 ≤ℤ p.max_attempts
  pub few_attempts : p.max_attempts ≤ℤ pos 100
  pub known_kind : (p.backoff_kind ≡ codes "exp") ⊎ (p.backoff_kind ≡ codes "linear")
  pub base_int64 : IsInt64 p.base_delay
  pub max_int64 : IsInt64 p.max_delay
  pub known_classes : All IsRetryable p.retry_on

contains-IsRetryable : (s : Str) → contains retryable_classes s ≡ true → IsRetryable s
contains-IsRetryable s h = ground (
  arith,
  str_eq_iff (codes "timeout") s,
  str_eq_iff (codes "exit") s,
  str_eq_iff (codes "deps") s,
  str_eq_iff (codes "build_assign") s,
)

retry_classes-IsRetryable : (u : Unicode) (l : Items) → All IsRetryable (retry_classes u l)
unfolding retry_classes
retry_classes-IsRetryable u nil = tt
retry_classes-IsRetryable u (cons (string v) l) =
    elim (Bool-cases (contains retryable_classes (normal u v))) [
      | inl e ↦ rw e (contains-IsRetryable (normal u v) e, retry_classes-IsRetryable u l)
      | inr e ↦ rw e (retry_classes-IsRetryable u l)
    ]
retry_classes-IsRetryable u (cons _ l) = retry_classes-IsRetryable u l

retry_default-IsValid : IsValid retry_default
retry_default-IsValid = record {
  some_attempt = omega arith;
  few_attempts = omega arith;
  known_kind = inl refl;
  base_int64 = omega arith;
  max_int64 = omega arith;
  known_classes = (inl refl, (inr (inl refl), tt));
}

set_max_attempts-IsValid :
    (v : Option ℤ) (p : RetryPolicy) → IsValid p → IsValid (set_max_attempts v p)
unfolding set_max_attempts
set_max_attempts-IsValid none p h = h
set_max_attempts-IsValid (some v) p h = ground arith

set_backoff-IsValid :
    (u : Unicode) (v : Value) (p : RetryPolicy) → IsValid p → IsValid (set_backoff u v p)
unfolding set_backoff
set_backoff-IsValid u (string v) p h = ground arith
set_backoff-IsValid u _ p h = h

set_base_delay-IsValid : (v : Option ℤ) (p : RetryPolicy) → IsValid p → IsValid (set_base_delay v p)
unfolding set_base_delay
set_base_delay-IsValid none p h = h
set_base_delay-IsValid (some v) p h = ground (arith, wrap64-IsInt64 (wrap64 v *ℤ second))

set_max_delay-IsValid : (v : Option ℤ) (p : RetryPolicy) → IsValid p → IsValid (set_max_delay v p)
unfolding set_max_delay
set_max_delay-IsValid none p h = h
set_max_delay-IsValid (some v) p h = ground (arith, wrap64-IsInt64 (wrap64 v *ℤ second))

set_retry_on-IsValid :
    (u : Unicode) (v : Value) (p : RetryPolicy) → IsValid p → IsValid (set_retry_on u v p)
unfolding set_retry_on
set_retry_on-IsValid u (array l) p h = record {
  some_attempt = h.some_attempt;
  few_attempts = h.few_attempts;
  known_kind = h.known_kind;
  base_int64 = h.base_int64;
  max_int64 = h.max_int64;
  known_classes = retry_classes-IsRetryable u l;
}
set_retry_on-IsValid u _ p h = h

policy_from_block-IsValid : (u : Unicode) (v : Value) → IsValid (policy_from_block u v)
unfolding policy_from_block
policy_from_block-IsValid u (object raw) =
    let attempts = number_as_int (get raw (codes "max_attempts")) in
    let base = number_as_int (get raw (codes "base_delay_s")) in
    let cap = number_as_int (get raw (codes "max_delay_s")) in
    let p1 = set_max_attempts attempts retry_default in
    let p2 = set_backoff u (get raw (codes "backoff")) p1 in
    let p3 = set_base_delay base p2 in
    set_retry_on-IsValid u (get raw (codes "retry_on")) (set_max_delay cap p3) (
      set_max_delay-IsValid cap p3 (
        set_base_delay-IsValid base p2 (
          set_backoff-IsValid u (get raw (codes "backoff")) p1
            (set_max_attempts-IsValid attempts retry_default retry_default-IsValid))))
policy_from_block-IsValid u _ = retry_default-IsValid

-- For every configuration of a spider the parsed policy is valid: between 1 and 100 attempts, a
-- known kind of backoff, delays in the range of int64, and only retryable classes.
pub policy_from_spider_config-IsValid :
    (u : Unicode) (cfg : Fields) → IsValid (policy_from_spider_config u cfg)
unfolding policy_from_spider_config
policy_from_spider_config-IsValid u cfg = policy_from_block-IsValid u (get cfg (codes "retry"))

set_max_delay-base :
    (v : Option ℤ) (p : RetryPolicy) → (set_max_delay v p).base_delay ≡ p.base_delay
unfolding set_max_delay
set_max_delay-base none p = refl
set_max_delay-base (some v) p = ground arith

set_retry_on-base :
    (u : Unicode) (v : Value) (p : RetryPolicy) → (set_retry_on u v p).base_delay ≡ p.base_delay
unfolding set_retry_on
set_retry_on-base u (array l) p = refl
set_retry_on-base u _ p = refl

seconds-*ℤ : (n : ℕ) → pos n *ℤ second ≡ pos (n * 1_000_000_000)
unfolding ◌*ℤ◌
seconds-*ℤ n = ground arith

seconds_exact :
    (n : ℕ) → n ≤ 9_223_372_036 → wrap64 (wrap64 (pos n) *ℤ second) ≡ pos (n * 1_000_000_000)
seconds_exact n h =
    rw (wrap64-eq (pos n) (omega arith), seconds-*ℤ n)
      (wrap64-eq (pos (n * 1_000_000_000)) (omega arith))

set_base_delay_seconds :
    (n : ℕ) (p : RetryPolicy)
    → n ≤ 9_223_372_036
    → (set_base_delay (some (pos n)) p).base_delay ≡ pos (n * 1_000_000_000)
unfolding set_base_delay
set_base_delay_seconds n p h = rw (seconds_exact n h) (ground arith)

number_as_int-seconds :
    (n : ℕ) → n ≤ 9_223_372_036 → number_as_int (float64 (finite false n 0)) ≡ some (pos n)
unfolding number_as_int
number_as_int-seconds n h = ground arith

-- A whole number of seconds under `base_delay_s`, up to 292 years, becomes that many nanoseconds,
-- whatever else the retry block holds.
pub base_delay_exact :
    (u : Unicode) (cfg raw : Fields) (n : ℕ)
    → get cfg (codes "retry") ≡ object raw
    → get raw (codes "base_delay_s") ≡ float64 (finite false n 0)
    → n ≤ 9_223_372_036
    → (policy_from_spider_config u cfg).base_delay ≡ pos (n * 1_000_000_000)
unfolding policy_from_spider_config policy_from_block
base_delay_exact u cfg raw n e b h =
    rw (e, policy_from_block)
      (rw (set_retry_on-base, set_max_delay-base, b, number_as_int-seconds n h)
        (set_base_delay_seconds n _ h))
