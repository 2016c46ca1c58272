-- ===== src/Prelude/Path.antt =====
-- The lexical functions of package path/filepath on Unix: Clean, Join, Abs, Dir. A path is a text.
use mathlib.Core.List.{append_assoc, append-nil}
use crawler_lite.Prelude.Base.{
  ℕ, ◌==◌, ◌≡◌, refl, sym, ap, ◌∙◌, inl, inr, Bool, true, false, not, ◌||◌, List, [], ◌∷◌, ◌++◌,
  if◌then◌else◌, All, All-append, Bool-cases, arith,
}
use crawler_lite.Prelude.Text.{Str, codes, str_eq, is_empty}

abbrev pub slash : ℕ
slash = b'/'

abbrev pub is_rooted : Str → Bool
is_rooted [] = false
is_rooted (c ∷ s) = c == slash

-- The parts between the slashes.
abbrev put_front : ℕ → List Str → List Str
put_front c [] = (c ∷ []) ∷ []
put_front c (p ∷ ps) = (c ∷ p) ∷ ps

pub split : Str → List Str
split [] = [] ∷ []
split (c ∷ s) = let rest = split s in if c == slash then [] ∷ rest else put_front c rest

abbrev pub dot_dot : Str
dot_dot = codes ".."

-- All parts but the last one, and whether there is a last one to back up over.
abbrev pub init : List Str → List Str
init [] = []
init (p ∷ []) = []
init (p ∷ q ∷ ps) = p ∷ init (q ∷ ps)

abbrev pub can_back : List Str → Bool
can_back [] = false
can_back (p ∷ []) = not (str_eq p dot_dot)
can_back (p ∷ q ∷ ps) = can_back (q ∷ ps)

-- One part of a path: an empty one and `.` are dropped, `..` backs up.
abbrev pub resolve : Bool → List Str → Str → List Str
resolve rooted parts p =
    if is_empty p || str_eq p (codes ".")
    then parts
    else if str_eq p dot_dot
    then if can_back parts then init parts else if rooted then parts else parts ++ (dot_dot ∷ [])
    else parts ++ (p ∷ [])

pub resolve_all : Bool → List Str → List Str → List Str
resolve_all rooted parts [] = parts
resolve_all rooted parts (p ∷ ps) = resolve_all rooted (resolve rooted parts p) ps

-- Each part after a slash.
abbrev pub slashed : List Str → Str
slashed [] = []
slashed (p ∷ ps) = slash ∷ (p ++ slashed ps)

abbrev pub render : Bool → List Str → Str
render true [] = slash ∷ []
render true (p ∷ ps) = slashed (p ∷ ps)
render false [] = codes "."
render false (p ∷ ps) = p ++ slashed ps

-- filepath.Clean
unfoldable pub clean : Str → Str
unfolding split resolve_all
clean s = render (is_rooted s) (resolve_all (is_rooted s) [] (split s))

-- filepath.Join of two elements; an empty one is left out.
unfoldable pub join : Str → Str → Str
unfolding clean
join a b =
    if is_empty a
    then if is_empty b then [] else clean b
    else if is_empty b
    then clean a
    else clean (a ++ (slash ∷ b))

-- filepath.Abs in the working directory `cwd`.
unfoldable pub abs : Str → Str → Str
unfolding clean join
abs cwd s = if is_rooted s then clean s else join cwd s

-- The path up to its last slash.
abbrev pub has_slash : Str → Bool
has_slash [] = false
has_slash (c ∷ s) = if c == slash then true else has_slash s

pub up_to_slash : Str → Str
up_to_slash [] = []
up_to_slash (c ∷ s) = let rest = up_to_slash s in if c == slash || has_slash s then c ∷ rest else []

-- filepath.Dir
unfoldable pub dir_of : Str → Str
unfolding clean up_to_slash
dir_of s = clean (up_to_slash s)

-- A part that Clean leaves: not empty, no slash in it, neither `.` nor `..`.
pub record IsPart (p : Str) : Type 0 where
  pub some_text : is_empty p ≡ false
  pub no_slash : has_slash p ≡ false
  pub not_dot : str_eq p (codes ".") ≡ false
  pub not_up : str_eq p dot_dot ≡ false

init-IsPart : (ps : List Str) → All IsPart ps → All IsPart (init ps)
init-IsPart [] h = tt
init-IsPart (p ∷ []) h = tt
init-IsPart (p ∷ q ∷ ps) (h, hs) = (h, init-IsPart (q ∷ ps) hs)

resolve-IsPart :
    (parts : List Str) (p : Str)
    → has_slash p ≡ false
    → All IsPart parts
    → All IsPart (resolve true parts p)
resolve-IsPart parts p n h = elim (Bool-cases (is_empty p || str_eq p (codes "."))) [
  | inl e ↦ rw e h
  | inr plain ↦ elim (Bool-cases (str_eq p dot_dot)) [
    | inl u ↦ elim (Bool-cases (can_back parts)) [
      | inl b ↦ rw (plain, u, b) (init-IsPart parts h)
      | inr b ↦ rw (plain, u, b) h
    ]
    | inr u ↦
        rw (plain, u)
          (All-append IsPart parts (p ∷ []) h (
            record {
              some_text = ground (arith, plain);
              no_slash = n;
              not_dot = ground (arith, plain);
              not_up = u;
            },
            tt,
          ))
  ]
]

abbrev NoSlash : Str → Type 0
NoSlash p = has_slash p ≡ false

put_front-NoSlash :
    (c : ℕ) (ps : List Str) → (c == slash) ≡ false → All NoSlash ps → All NoSlash (put_front c ps)
put_front-NoSlash c [] e h = (rw e refl, tt)
put_front-NoSlash c (p ∷ ps) e (h, hs) = (rw e h, hs)

split-NoSlash : (s : Str) → All NoSlash (split s)
unfolding split
split-NoSlash [] = (refl, tt)
split-NoSlash (c ∷ s) = elim (Bool-cases (c == slash)) [
  | inl e ↦ rw e (refl, split-NoSlash s)
  | inr e ↦ rw e (put_front-NoSlash c (split s) e (split-NoSlash s))
]

resolve_all-IsPart :
    (parts ps : List Str)
    → All NoSlash ps
    → All IsPart parts
    → All IsPart (resolve_all true parts ps)
unfolding resolve_all
resolve_all-IsPart parts [] n h = h
resolve_all-IsPart parts (p ∷ ps) (n, ns) h =
    resolve_all-IsPart (resolve true parts p) ps ns (resolve-IsPart parts p n h)

-- Clean of a rooted path is `/` with such parts.
pub clean_parts :
    (s : Str) → is_rooted s ≡ true → (ps : List Str) × All IsPart ps × (clean s ≡ render true ps)
unfolding clean
clean_parts s e =
    (resolve_all true [] (split s), resolve_all-IsPart [] (split s) (split-NoSlash s) tt, rw e refl)

-- Clean changes nothing in a clean path.
split-slashed : (p : Str) (ps : List Str) → All NoSlash (p ∷ ps) → split (p ++ slashed ps) ≡ p ∷ ps
unfolding split
split-slashed [] [] h = refl
split-slashed [] (q ∷ ps) (n, h) = ap (λ l. [] ∷ l) (split-slashed q ps h)
split-slashed (c ∷ p) ps (n, h) = elim (Bool-cases (c == slash)) [
  | inl e ↦ ground (arith, e, n)
  | inr e ↦ rw e (ap (put_front c) (split-slashed p ps (ground (arith, e, n), h)))
]

resolve-part : (parts : List Str) (p : Str) → IsPart p → resolve true parts p ≡ parts ++ (p ∷ [])
resolve-part parts p h = rw (h.some_text, h.not_dot, h.not_up) refl

resolve_all-parts : (parts ps : List Str) → All IsPart ps → resolve_all true parts ps ≡ parts ++ ps
unfolding resolve_all
resolve_all-parts parts [] h = sym (append-nil parts)
resolve_all-parts parts (p ∷ ps) (h, hs) =
    ap (λ l. resolve_all true l ps) (resolve-part parts p h)
    ∙ resolve_all-parts (parts ++ (p ∷ [])) ps hs
    ∙ append_assoc parts (p ∷ []) ps

no_slashes : (ps : List Str) → All IsPart ps → All NoSlash ps
no_slashes [] h = tt
no_slashes (p ∷ ps) (h, hs) = (h.no_slash, no_slashes ps hs)

pub clean-render : (ps : List Str) → All IsPart ps → clean (render true ps) ≡ render true ps
unfolding clean resolve_all split
clean-render [] h = refl
clean-render (p ∷ ps) h =
    ap (λ l. render true (resolve_all true [] ([] ∷ l)))
      (split-slashed p ps (no_slashes (p ∷ ps) h))
    ∙ ap (render true) (resolve_all-parts [] (p ∷ ps) h)
