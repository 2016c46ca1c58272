-- ===== src/Retry/Number.antt =====
-- The conversions between Go's integers and floats that internal/task/retry.go makes, for a 64-bit
-- platform. A float outside the range of int64 converts to the least int64, as amd64 does.
use crawler_lite.Prelude.Base.{
  ℕ, zero, suc, ◌+◌, ◌*◌, ◌/◌, ◌%◌, ◌^◌, ◌<◌, ◌≡◌, refl, true, false, Option, none, some, arith,
  ltb, leb, if◌then◌else◌,
}
use crawler_lite.Prelude.Int.{ℤ, pos, negsuc, sub_ℕ}
use crawler_lite.Prelude.Json.{
  Float64, nan, inf, finite, Value, int, int32, int64, float64, float32,
}

abbrev pub min_int64 : ℤ
min_int64 = sub_ℕ 0 (2 ^ 63)

-- `int(f)`: truncation towards zero.
unfoldable pub to_int64 : Float64 → ℤ
to_int64 nan = min_int64
to_int64 (inf sign) = min_int64
to_int64 (finite true num places) =
    if leb (num / 2 ^ places) (2 ^ 63) then sub_ℕ 0 (num / 2 ^ places) else min_int64
to_int64 (finite false num places) =
    if ltb (num / 2 ^ places) (2 ^ 63) then pos (num / 2 ^ places) else min_int64

-- How many low bits of a 64-bit magnitude do not fit into a significand of 53 bits.
excess : ℕ → ℕ → ℕ
excess zero m = 0
excess (suc k) m = let rest = excess k (m / 2) in if ltb m (2 ^ 53) then 0 else suc rest

-- Drops `e` bits, to the nearest value and to the even one between two.
round_even : ℕ → ℕ → ℕ
round_even e m =
    let q = m / 2 ^ e in
    let r = 2 * (m % 2 ^ e) in
    if ltb r (2 ^ e)
    then q * 2 ^ e
    else if ltb (2 ^ e) r
    then (q + 1) * 2 ^ e
    else (q + q % 2) * 2 ^ e

round53 : ℕ → ℕ
unfolding excess round_even
round53 m = if ltb m (2 ^ 53) then m else round_even (excess 11 m) m

-- `float64(z)` of an int64.
unfoldable pub of_int64 : ℤ → Float64
unfolding round53
of_int64 (pos n) = finite false (round53 n) 0
of_int64 (negsuc n) = finite true (round53 (suc n)) 0

-- A product with a power of two changes the exponent only; the exponents here stay far below the
-- greatest double.
unfoldable pub mul_pow2 : Float64 → ℕ → Float64
mul_pow2 nan k = nan
mul_pow2 (inf sign) k = inf sign
mul_pow2 (finite sign num places) k = finite sign (num * 2 ^ k) places

-- Below 2 ^ 53 the conversion is exact.
pub of_int64_exact : (n : ℕ) → n < 2 ^ 53 → of_int64 (pos n) ≡ finite false n 0
unfolding of_int64
of_int64_exact n h = ground arith

-- internal/task/retry.go, numberAsInt
unfoldable pub number_as_int : Value → Option ℤ
unfolding to_int64
number_as_int (int n) = some n
number_as_int (int32 n) = some n
number_as_int (int64 n) = some n
number_as_int (float64 nan) = none
number_as_int (float64 (inf sign)) = none
number_as_int (float64 (finite sign num places)) = some (to_int64 (finite sign num places))
number_as_int (float32 n) = some (to_int64 n)
number_as_int _ = none

rounds_to_even : of_int64 (pos (2 ^ 53 + 1)) ≡ finite false (2 ^ 53) 0
unfolding of_int64
rounds_to_even = refl
