-- ===== src/Retry/Delay.antt =====
-- The delay before a retry: the cap, the exact value where nothing overflows, and the overflow.
use crawler_lite.Prelude.Base.{
  ◌∙◌, sym, Bool, ℕ, ◌-◌, ◌*◌, ◌^◌, ◌≤◌, ◌<◌, ◌≡◌, refl, ◌≢◌, true, false, ◌&&◌, arith, ltb,
  if◌then◌else◌,
}
use mathlib.Core.Bool.{false≢true}
use crawler_lite.Prelude.Text.{str_eq_iff, str_eq, codes, str_eq_ne, str_eq_refl}
use crawler_lite.Prelude.Int.{ℤ, pos, ◌*ℤ◌, ◌-ℤ◌, ltb_ℤ, wrap64, wrap64-eq}
use crawler_lite.Prelude.Json.{finite}
use crawler_lite.Retry.Number.{of_int64_exact, mul_pow2, to_int64, min_int64}
use crawler_lite.Retry.{RetryPolicy, exponent, uncapped, backoff_for}

-- The exponent of the n-th attempt, counted from 1.
abbrev pub steps : ℕ → ℕ
steps n = if ltb 31 n then 30 else n - 1

exponent-steps : (n : ℕ) → 1 ≤ n → n < 2 ^ 63 → exponent (pos n) ≡ pos (steps n)
unfolding exponent ◌-ℤ◌ wrap64
exponent-steps n h k = ground arith

-- The delay that the policy means: the base doubled for each attempt after the first (30 times at
-- most), or multiplied by the attempt.
abbrev pub exp_delay : ℕ → ℕ → ℕ
exp_delay base n = base * 2 ^ steps n

-- A number of nanoseconds under the policy's cap.
abbrev pub capped : RetryPolicy → ℕ → ℤ
capped p d = if ltb_ℤ (pos 0) p.max_delay && ltb_ℤ p.max_delay (pos d) then p.max_delay else pos d

uncapped_exp :
    (p : RetryPolicy) (base n : ℕ)
    → p.backoff_kind ≢ codes "linear"
    → p.base_delay ≡ pos base
    → base < 2 ^ 53
    → 1 ≤ n
    → n < 2 ^ 63
    → uncapped p (pos n) ≡ to_int64 (finite false (exp_delay base n) 0)
unfolding uncapped mul_pow2
uncapped_exp p base n k b small one big =
    rw (str_eq_ne p.backoff_kind (codes "linear") k, b)
      (rw (exponent-steps n one big, of_int64_exact base small) refl)

pos-*ℤ : (m n : ℕ) → pos m *ℤ pos n ≡ pos (m * n)
unfolding ◌*ℤ◌
pos-*ℤ m n = ground arith

uncapped_linear :
    (p : RetryPolicy) (base n : ℕ)
    → p.backoff_kind ≡ codes "linear"
    → p.base_delay ≡ pos base
    → n * base < 2 ^ 63
    → uncapped p (pos n) ≡ pos (n * base)
unfolding uncapped
uncapped_linear p base n k b fits =
    rw (k, str_eq_refl (codes "linear"), b, pos-*ℤ) (wrap64-eq (pos (n * base)) (omega arith))

to_int64_exact : (d : ℕ) → d < 2 ^ 63 → to_int64 (finite false d 0) ≡ pos d
unfolding to_int64
to_int64_exact d h = ground arith

to_int64_overflow : (d : ℕ) → 2 ^ 63 ≤ d → to_int64 (finite false d 0) ≡ min_int64
unfolding to_int64
to_int64_overflow d h = ground arith

backoff_for_exp :
    (p : RetryPolicy) (base n : ℕ)
    → p.backoff_kind ≢ codes "linear"
    → p.base_delay ≡ pos base
    → 0 < base
    → base < 2 ^ 53
    → 1 ≤ n
    → n < 2 ^ 63
    → exp_delay base n < 2 ^ 63
    → backoff_for p (pos n) ≡ capped p (exp_delay base n)
unfolding backoff_for
backoff_for_exp p base n k b some small one big fits =
    ground (arith, uncapped_exp p base n k b small one big, to_int64_exact (exp_delay base n) fits)

backoff_for_linear :
    (p : RetryPolicy) (base n : ℕ)
    → p.backoff_kind ≡ codes "linear"
    → p.base_delay ≡ pos base
    → 0 < base
    → n * base < 2 ^ 63
    → backoff_for p (pos n) ≡ capped p (n * base)
unfolding backoff_for
backoff_for_linear p base n k b some fits = ground (arith, uncapped_linear p base n k b fits)

-- The delay without the cap.
abbrev pub delay_of : RetryPolicy → ℕ → ℕ → ℕ
delay_of p base n = if str_eq p.backoff_kind (codes "linear") then n * base else exp_delay base n

-- Where the product stays below 2 ^ 63 nanoseconds (292 years) and the base is below 2 ^ 53 nanoseconds
-- (104 days), the delay is, under the cap, the base times the attempt for linear backoff, and for every
-- other kind the base doubled for each attempt after the first, 30 times at most.
pub backoff_for_lem :
    (p : RetryPolicy) (base n : ℕ)
    → p.base_delay ≡ pos base
    → 0 < base
    → base < 2 ^ 53
    → 1 ≤ n
    → n < 2 ^ 63
    → delay_of p base n < 2 ^ 63
    → backoff_for p (pos n) ≡ capped p (delay_of p base n)
backoff_for_lem p base n b some small one big fits =
    by_kind (str_eq p.backoff_kind (codes "linear")) refl fits
  where
    by_kind :
        (linear : Bool)
        → str_eq p.backoff_kind (codes "linear") ≡ linear
        → (if linear then n * base else exp_delay base n) < 2 ^ 63
        → backoff_for p (pos n) ≡ capped p (if linear then n * base else exp_delay base n)
    by_kind true e fits =
        backoff_for_linear p base n ((str_eq_iff p.backoff_kind (codes "linear")).0 e) b some fits
    by_kind false e fits =
        backoff_for_exp p base n
          (λ q. false≢true (sym e ∙ (str_eq_iff p.backoff_kind (codes "linear")).1 q)) b some small
          one big fits

-- For a backoff that is not linear, a positive base below 2 ^ 53 nanoseconds (104 days) and an attempt
-- from 1 to 2 ^ 63 - 1: where the base doubled for each attempt after the first, 30 times at most,
-- reaches 2 ^ 63 nanoseconds, the delay is the least int64, whatever the cap.
pub backoff_for_overflow :
    (p : RetryPolicy) (base n : ℕ)
    → p.backoff_kind ≢ codes "linear"
    → p.base_delay ≡ pos base
    → 0 < base
    → base < 2 ^ 53
    → 1 ≤ n
    → n < 2 ^ 63
    → 2 ^ 63 ≤ exp_delay base n
    → backoff_for p (pos n) ≡ min_int64
unfolding backoff_for
backoff_for_overflow p base n k b some small one big over =
    ground
      (arith, uncapped_exp p base n k b small one big, to_int64_overflow (exp_delay base n) over)
