-- ===== src/Notify/Decimal.antt =====
-- The decimal numbers of internal/notify/notify.go and internal/hub/sinks.go, read back.
use crawler_lite.Prelude.Base.{
  ℕ, zero, suc, ◌+◌, ◌*◌, ◌-◌, ◌/◌, ◌%◌, ◌^◌, ◌<◌, ◌≡◌, refl, inl, inr, Bool, true, ◌&&◌, [], ◌∷◌,
  ◌++◌, ltb, leb, if◌then◌else◌, arith, Bool-cases,
}
use mathlib.Core.List.{append_assoc}
use crawler_lite.Prelude.Text.{Str}
use crawler_lite.Notify.Format.{digits}

abbrev pub is_digit : ℕ → Bool
is_digit c = leb b'0' c && leb c b'9'

-- The number that a text begins with, after the digits that make `n`.
abbrev pub read : ℕ → Str → ℕ
read n [] = n
read n (c ∷ s) = let rest = read (n * 10 + (c - b'0')) s in if is_digit c then rest else n

is_digit_lem : (d : ℕ) → d < 10 → is_digit (b'0' + d) ≡ true
is_digit_lem d h = ground arith

sub_lem : (d : ℕ) → (b'0' + d) - b'0' ≡ d
sub_lem d = omega arith

read_digit :
    (n d m : ℕ) (rest : Str) → d < 10 → n * 10 + d ≡ m → read n ((b'0' + d) ∷ rest) ≡ read m rest
read_digit n d m rest h e = rw (is_digit_lem d h, sub_lem d, e) refl

-- The first digits of n stand before the last one.
pub read-digits :
    (fuel n : ℕ) (rest : Str)
    → 0 < fuel
    → n < 10 ^ fuel
    → read 0 (digits fuel n ++ rest) ≡ read n rest
unfolding digits
read-digits zero n rest k h = omega (arith, k)
read-digits (suc fuel) n rest k h = elim (Bool-cases (ltb n 10)) [
  | inl e ↦ rw e (read_digit 0 n n rest (ground (arith, e)) (omega arith))
  | inr e ↦
      rw
        (
          e,
          append_assoc (digits fuel (n / 10)) ((b'0' + n % 10) ∷ []) rest,
          read-digits fuel (n / 10) ((b'0' + n % 10) ∷ rest) (ground (arith, e, h))
              (ground (arith, e, h)),
          read_digit (n / 10) (n % 10) n rest (omega arith) (omega arith),
        )
        refl
]
