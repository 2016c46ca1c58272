-- ===== src/Runner/Truncation.antt =====
-- The cut of an error text: it keeps a prefix of whole runes within the limit, and does not panic on
-- a text that begins with a rune.
use crawler_lite.Prelude.Base.{
  ℕ, zero, suc, ◌+◌, ◌≤◌, ◌<◌, ◌≡◌, ◌⊎◌, inl, inr, true, false, some, [], ◌∷◌, ◌++◌, length,
  length-append, take, leb, arith, Bool-cases,
}
use crawler_lite.Prelude.Text.{Str}
use crawler_lite.Runner.Outcome.{starts_at, boundary, ellipsis, truncate_err}

-- The last position up to `n` at which a rune starts.
pub record LastStart (s : Str) (n k : ℕ) : Type 0 where
  pub within : k ≤ n
  pub starts : starts_at s k ≡ true
  pub last : (j : ℕ) → k < j → j ≤ n → starts_at s j ≡ false

le_suc_cases : (j n : ℕ) → j ≤ suc n → (j ≡ suc n) ⊎ (j ≤ n)
le_suc_cases j n h = grind arith

boundary_lem :
    (s : Str) (n : ℕ) → starts_at s 0 ≡ true → (k : ℕ) × (boundary s n ≡ some k) × LastStart s n k
unfolding boundary
boundary_lem s zero h =
    (0, rw h, record { within = omega arith; starts = h; last = λ j a b. absurd (omega arith) })
boundary_lem s (suc n) h = elim (Bool-cases (starts_at s (suc n))) [
  | inl e ↦ (
    suc n,
    rw e,
    record { within = omega arith; starts = e; last = λ j a b. absurd (omega arith) },
  )
  | inr e ↦
      let (k, q, l) = boundary_lem s n h in
      (
        k,
        rw (e, q),
        record {
          within = omega (arith, l.within);
          starts = l.starts;
          last = λ j a b. elim (le_suc_cases j n b) [ inl p ↦ rw p e | inr p ↦ l.last j a p ];
        },
      )
]

length-take-le : (k : ℕ) (s : Str) → length (take k s) ≤ k
length-take-le zero s = omega arith
length-take-le (suc k) [] = omega arith
length-take-le (suc k) (c ∷ s) = omega (arith, length-take-le k s)

-- For a text that begins with a rune (as every valid one does) the cut does not panic. A text within
-- the limit is kept; a longer one is cut at the last position within the limit at which a rune
-- starts, and marked by an ellipsis, so at most three bytes pass the limit.
pub truncate_err_lem :
    (s : Str) (n : ℕ)
    → starts_at s 0 ≡ true
    → ((length s ≤ n) × (truncate_err s n ≡ some s))
      ⊎ ((k : ℕ) × (n < length s)
          × LastStart s n k
          × (truncate_err s n ≡ some (take k s ++ ellipsis))
          × (length (take k s ++ ellipsis) ≤ n + 3))
unfolding truncate_err
truncate_err_lem s n h = elim (Bool-cases (leb (length s) n)) [
  | inl e ↦ inl (ground arith, rw e)
  | inr e ↦
      let (k, q, l) = boundary_lem s n h in
      inr (
        k,
        ground arith,
        l,
        rw (e, q, truncate_err),
        omega (arith, length-append (take k s) ellipsis, length-take-le k s, l.within),
      )
]
