-- ===== src/Retry/Decision.antt =====
-- What Decide answers, on every policy and every failure.
use mathlib.Core.Bool.{false≢true}
use mathlib.Core.List.{Mem}
use crawler_lite.Prelude.Base.{
  ◌≡◌, refl, sym, ap, ◌∙◌, ◌≢◌, ◌⊎◌, inl, inr, true, false, [], ◌∷◌, ◌↔◌, arith,
}
use crawler_lite.Prelude.Int.{ℤ, pos, ◌<ℤ◌}
use crawler_lite.Prelude.Text.{Str, codes, str_eq_iff, is_empty, contains_iff, Unicode, normal}
use crawler_lite.Retry.{RetryPolicy, backoff_for, decide}

-- The failure of attempt `attempt` is one that the policy retries.
pub record Retries (u : Unicode) (p : RetryPolicy) (attempt : ℤ) (err_class : Str) : Type 0 where
  pub more_than_one : pos 1 <ℤ p.max_attempts
  pub below_max : attempt <ℤ p.max_attempts
  pub known : normal u err_class ≢ []
  pub not_captcha : normal u err_class ≢ codes "captcha"
  pub listed : Mem (normal u err_class) p.retry_on

is_empty_iff : (s : Str) → (is_empty s ≡ true) ↔ (s ≡ [])
is_empty_iff [] = ((λ _. refl), λ _. refl)
is_empty_iff (c ∷ s) = ((λ e. cc), λ e. cc)

pub Retries-decide :
    (u : Unicode) (p : RetryPolicy) (attempt : ℤ) (err_class : Str)
    → Retries u p attempt err_class
    → decide u p attempt err_class ≡ (true, backoff_for p attempt)
unfolding decide
Retries-decide u p attempt err_class r = ground (
  arith,
  is_empty_iff (normal u err_class),
  str_eq_iff (normal u err_class) (codes "captcha"),
  (contains_iff p.retry_on (normal u err_class)).1 r.listed,
)

pub decide-Retries :
    (u : Unicode) (p : RetryPolicy) (attempt : ℤ) (err_class : Str)
    → (decide u p attempt err_class ≡ (false, pos 0)) ⊎ Retries u p attempt err_class
unfolding decide
decide-Retries u p attempt err_class = ground (
  arith,
  is_empty_iff (normal u err_class),
  str_eq_iff (normal u err_class) (codes "captcha"),
  contains_iff p.retry_on (normal u err_class),
)

-- A yes comes from a failure that the policy retries.
pub decide-true :
    (u : Unicode) (p : RetryPolicy) (attempt : ℤ) (err_class : Str)
    → (decide u p attempt err_class).0 ≡ true
    → Retries u p attempt err_class
decide-true u p attempt err_class h = elim (decide-Retries u p attempt err_class) [
  | inl e ↦ cc
  | inr r ↦ r
]

-- Decide answers yes with the backoff delay exactly on the failures that the policy retries: more
-- than one attempt is allowed, this one is not the last, and the trimmed lower-case class is
-- known, is not captcha and is listed. On all others it answers no, with no delay.
pub decide_lem :
    (u : Unicode) (p : RetryPolicy) (attempt : ℤ) (err_class : Str)
    → (Retries u p attempt err_class
        × (decide u p attempt err_class ≡ (true, backoff_for p attempt)))
      ⊎ ((¬ Retries u p attempt err_class) × (decide u p attempt err_class ≡ (false, pos 0)))
decide_lem u p attempt err_class = elim (decide-Retries u p attempt err_class) [
  | inl e ↦ inr (
    λ r.
        false≢true (sym (ap (λ x. x.0) e) ∙ ap (λ x. x.0) (Retries-decide u p attempt err_class r)),
    e,
  )
  | inr r ↦ inl (r, Retries-decide u p attempt err_class r)
]
