-- ===== src/Prelude/Text.antt =====
-- Go strings as lists of code points, and the parts of package strings that the program calls.
use Prim.Native.Char.{code}
use mathlib.Core.Bool.{false≢true}
use mathlib.Core.List.{Mem, Mem-prop, mem-cons, not-mem-nil}
use mathlib.Core.Logic.Or
use crawler_lite.Prelude.Base.{
  sym, ap, ◌∙◌, inl, inr, Bool-cases, ℕ, ◌+◌, ◌≡◌, ◌≢◌, refl, ◌↔◌, Bool, true, false, ◌&&◌, ◌||◌,
  List, [], ◌∷◌, map, String, arith, ltb, leb, ◌==◌, if◌then◌else◌,
}

abbrev pub Str : Type 0
Str = List ℕ

-- A literal of the source as its code points. `String` has its own `[]` and `∷`.
abbrev pub codes : String → Str
codes String.[] = []
codes (String.◌∷◌ c s) = code c ∷ codes s

unfoldable pub str_eq : Str → Str → Bool
str_eq [] [] = true
str_eq [] (b ∷ t) = false
str_eq (a ∷ s) [] = false
str_eq (a ∷ s) (b ∷ t) = a == b && str_eq s t

pub str_eq_iff : (s t : Str) → (str_eq s t ≡ true) ↔ (s ≡ t)
unfolding str_eq
str_eq_iff [] [] = ground arith
str_eq_iff [] (b ∷ t) = ground arith
str_eq_iff (a ∷ s) [] = ground arith
str_eq_iff (a ∷ s) (b ∷ t) = ground (arith, str_eq_iff s t)

pub str_eq_ne : (s t : Str) → s ≢ t → str_eq s t ≡ false
str_eq_ne s t h = ground (arith, str_eq_iff s t)

pub str_eq_refl : (s : Str) → str_eq s s ≡ true
str_eq_refl s = (str_eq_iff s s).1 refl

abbrev pub is_empty : Str → Bool
is_empty [] = true
is_empty (c ∷ s) = false

abbrev pub contains : List Str → Str → Bool
contains [] s = false
contains (x ∷ xs) s = if str_eq x s then true else contains xs s

-- The Unicode tables of Go's standard library above ASCII: `unicode.ToLower` and `unicode.IsSpace`.
pub record Unicode : Type 0 where
  pub lower : ℕ → ℕ
  pub space : ℕ → Bool

-- A runtime whose tables map nothing above ASCII.
abbrev pub ascii_only : Unicode
ascii_only = record { lower = λ c. c; space = λ c. false }

pub lower_rune : Unicode → ℕ → ℕ
lower_rune u c = if ltb c 128 then (if leb b'A' c && leb c b'Z' then c + 32 else c) else u.lower c

unfoldable pub to_lower : Unicode → Str → Str
unfolding lower_rune
to_lower u s = map (lower_rune u) s

pub is_space : Unicode → ℕ → Bool
is_space u c = if ltb c 128 then c == 32 || (leb 9 c && leb c 13) else u.space c

pub trim_left : Unicode → Str → Str
unfolding is_space
trim_left u [] = []
trim_left u (c ∷ s) = if is_space u c then trim_left u s else c ∷ s

pub trim_right : Unicode → Str → Str
unfolding is_space
trim_right u [] = []
trim_right u (c ∷ s) =
    let rest = trim_right u s in
    elim rest [ [] ↦ (if is_space u c then [] else c ∷ []) | r ∷ rs ↦ c ∷ r ∷ rs ]

unfoldable pub trim_space : Unicode → Str → Str
unfolding trim_left trim_right
trim_space u s = trim_right u (trim_left u s)

-- strings.ToLower(strings.TrimSpace(s))
unfoldable pub normal : Unicode → Str → Str
unfolding to_lower trim_space
normal u s = to_lower u (trim_space u s)

normal_example : normal ascii_only (codes "  TimeOut ") ≡ codes "timeout"
unfolding normal
normal_example = refl

-- The linear search finds exactly the members.
pub contains_iff : (xs : List Str) (s : Str) → (contains xs s ≡ true) ↔ Mem s xs
contains_iff [] s = ((λ e. cc), λ m. absurd (not-mem-nil m))
contains_iff (x ∷ xs) s = elim (Bool-cases (str_eq x s)) [
  | inl e ↦ ((λ _. mem-cons.1 (Or.inl (sym ((str_eq_iff x s).0 e)))), λ _. rw e)
  | inr e ↦ rw e (
    (λ h. mem-cons.1 (Or.inr ((contains_iff xs s).0 h))),
    λ m. (contains_iff xs s).1 (
        Or.elim Mem-prop (mem-cons.0 m)
          (λ q. absurd (false≢true (sym e ∙ ap (λ t. str_eq x t) q ∙ str_eq_refl x))) (λ r. r)),
  )
]
