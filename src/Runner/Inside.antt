-- ===== src/Runner/Inside.antt =====
-- The prefix test of isWithin against the parts of the paths.
use mathlib.Core.Bool.{false≢true}
use crawler_lite.Prelude.Base.{
  ◌==◌, ◌≡◌, ◌≢◌, refl, sym, ap, ◌∙◌, inl, inr, Bool, true, false, ◌||◌, List, [], ◌∷◌, ◌++◌,
  length, take, drop, take-append-drop, All, Bool-cases, arith, if◌then◌else◌,
}
use mathlib.Core.List.{append-nil, append_assoc}
use crawler_lite.Prelude.Text.{Str, str_eq, str_eq_iff, is_empty}
use crawler_lite.Prelude.Path.{slash, has_slash, slashed, render, IsPart, is_rooted}
use crawler_lite.Runner.Unzip.{is_below}

-- The text up to the first slash, and the rest.
first : Str → Str
first [] = []
first (c ∷ s) = let rest = first s in if c == slash then [] else c ∷ rest

later : Str → Str
later [] = []
later (c ∷ s) = let rest = later s in if c == slash then c ∷ s else rest

-- Nothing, or a text after a slash.
abbrev ends_part : Str → Bool
ends_part s = is_empty s || is_rooted s

first-append : (p s : Str) → has_slash p ≡ false → ends_part s ≡ true → first (p ++ s) ≡ p
unfolding first
first-append [] [] n b = refl
first-append [] (c ∷ s) n b = ground (arith, b)
first-append (c ∷ p) s n b = elim (Bool-cases (c == slash)) [
  | inl e ↦ ground (arith, e, n)
  | inr e ↦ rw e (ap (λ l. c ∷ l) (first-append p s (ground (arith, e, n)) b))
]

later-append : (p s : Str) → has_slash p ≡ false → ends_part s ≡ true → later (p ++ s) ≡ s
unfolding later
later-append [] [] n b = refl
later-append [] (c ∷ s) n b = ground (arith, b)
later-append (c ∷ p) s n b = elim (Bool-cases (c == slash)) [
  | inl e ↦ ground (arith, e, n)
  | inr e ↦ rw e (later-append p s (ground (arith, e, n)) b)
]

ends_part-slashed :
    (ps : List Str) (s : Str) → ends_part s ≡ true → ends_part (slashed ps ++ s) ≡ true
ends_part-slashed [] s b = b
ends_part-slashed (p ∷ ps) s b = refl

ends_slashed : (ps : List Str) → ends_part (slashed ps) ≡ true
ends_slashed [] = refl
ends_slashed (p ∷ ps) = refl

abbrev tail_of : Str → Str
tail_of [] = []
tail_of (c ∷ s) = s

append_assoc_slashed :
    (p : Str) (ps : List Str) (s : Str) → (p ++ slashed ps) ++ s ≡ p ++ (slashed ps ++ s)
append_assoc_slashed p ps s = append_assoc p (slashed ps) s

-- A path that begins with all the parts of another one, and ends a part there, has more parts.
slashed-prefix :
    (ps ts : List Str) (s : Str)
    → All IsPart ps
    → All IsPart ts
    → ends_part s ≡ true
    → slashed ts ≡ slashed ps ++ s
    → (rest : List Str) × (ts ≡ ps ++ rest)
slashed-prefix [] ts s h k b e = (ts, refl)
slashed-prefix (p ∷ ps) [] s h k b e = cc
slashed-prefix (p ∷ ps) (t ∷ ts) s (h, hs) (k, ks) b e =
    let after_slash : t ++ slashed ts ≡ p ++ (slashed ps ++ s) =
      ap tail_of e ∙ append_assoc_slashed p ps s in
    let bt : ends_part (slashed ts) ≡ true = ends_slashed ts in
    let bp : ends_part (slashed ps ++ s) ≡ true = ends_part-slashed ps s b in
    let same : t ≡ p =
      sym (first-append t (slashed ts) k.no_slash bt)
      ∙ ap first after_slash
      ∙ first-append p (slashed ps ++ s) h.no_slash bp in
    let below : slashed ts ≡ slashed ps ++ s =
      sym (later-append t (slashed ts) k.no_slash bt)
      ∙ ap later after_slash
      ∙ later-append p (slashed ps ++ s) h.no_slash bp in
    let (rest, q) = slashed-prefix ps ts s hs ks b below in
    (rest, ap (λ x. x ∷ ts) same ∙ ap (λ l. p ∷ l) q)

too_short :
    (p rest : Str) → is_empty p ≡ false → is_below (slash ∷ (p ++ rest)) (slash ∷ []) ≡ false
unfolding str_eq
too_short [] rest h = cc
too_short (c ∷ p) rest h = ground arith

-- The three tests of the prefix give its text.
prefix_text :
    (p c : Str)
    → str_eq p c ≡ false
    → is_below p c ≡ true
    → (c ≡ p ++ drop (length p) c) × (is_rooted (drop (length p) c) ≡ true)
prefix_text p c n e =
    let front : take (length p) c ≡ p = ground (arith, n, e, str_eq_iff (take (length p) c) p) in
    (
      sym (take-append-drop (length p) c) ∙ ap (λ t. t ++ drop (length p) c) front,
      ground (arith, n, e),
    )

rooted_ends : (s : Str) → is_rooted s ≡ true → ends_part s ≡ true
rooted_ends s h = ground (arith, h)

-- The test accepts only paths whose parts extend the parent's.
pub is_below-parts :
    (ps ts : List Str)
    → ps ≢ []
    → All IsPart ps
    → All IsPart ts
    → is_below (render true ps) (render true ts) ≡ true
    → (rest : List Str) × (ts ≡ ps ++ rest)
is_below-parts [] ts n h k e = absurd (n refl)
is_below-parts (p ∷ ps) [] n (h, hs) k e =
    absurd (false≢true (sym (too_short p (slashed ps) h.some_text) ∙ e))
is_below-parts (p ∷ ps) (t ∷ ts) n h k e =
    elim (Bool-cases (str_eq (slashed (p ∷ ps)) (slashed (t ∷ ts)))) [
      | inl same ↦ slashed-prefix (p ∷ ps) (t ∷ ts) [] h k refl (
          sym ((str_eq_iff (slashed (p ∷ ps)) (slashed (t ∷ ts))).0 same)
          ∙ sym (append-nil (slashed (p ∷ ps))))
      | inr other ↦
          let (text, rooted) = prefix_text (slashed (p ∷ ps)) (slashed (t ∷ ts)) other e in
          slashed-prefix (p ∷ ps) (t ∷ ts) (drop (length (slashed (p ∷ ps))) (slashed (t ∷ ts))) h k
            (rooted_ends (drop (length (slashed (p ∷ ps))) (slashed (t ∷ ts))) rooted) text
    ]
