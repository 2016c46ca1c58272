-- ===== src/Runner/Extraction.antt =====
-- unzipTo of internal/runner/executor.go: where the files of an archive go.
use mathlib.Core.Path.{subst}
use crawler_lite.Prelude.Base.{
  ◌≡◌, ◌≢◌, refl, sym, ap, ◌∙◌, ◌⊎◌, inl, inr, true, List, [], ◌∷◌, ◌++◌, All, Bool-cases,
}
use crawler_lite.Prelude.Text.{Str}
use crawler_lite.Prelude.Path.{
  slash, clean, join, abs, dir_of, render, IsPart, is_rooted, clean_parts, clean-render,
}
use crawler_lite.Result.{Result, ok, err}
use crawler_lite.Store.{statement_keeps}
use crawler_lite.Runner.Unzip.{
  Effect, makes, opens, removes, temps, Disk, call, after, Entry, is_below, is_within, unzip_entry,
  unzip_entries, unzip_to,
}
use crawler_lite.Runner.Inside.{is_below-parts}

-- The path has the directory's parts, and then more, none of which is `..`.
pub record Inside (dir path : Str) : Type 0 where
  pub parts : List Str
  pub more : List Str
  pub are_parts : All IsPart (parts ++ more)
  pub dir_is : dir ≡ render true parts
  pub path_is : path ≡ render true (parts ++ more)

-- A file is opened inside the directory; a directory made is inside it, or the parent of such a path.
abbrev pub IsSafe : Str → Effect → Type 0
IsSafe dir (makes p) = Inside dir p ⊎ ((q : Str) × Inside dir q × (p ≡ dir_of q))
IsSafe dir (opens p) = Inside dir p
IsSafe dir (removes p) = p ≡ dir
IsSafe dir (temps p) = p ≡ dir

rooted_render : (ps : List Str) → is_rooted (render true ps) ≡ true
rooted_render [] = refl
rooted_render (p ∷ ps) = refl

-- Join with a rooted directory gives a clean rooted path.
join_parts :
    (dir name : Str)
    → is_rooted dir ≡ true
    → (ts : List Str) × All IsPart ts × (join dir name ≡ render true ts)
unfolding join
join_parts [] name r = cc
join_parts (c ∷ dir) [] r = clean_parts (c ∷ dir) r
join_parts (c ∷ dir) (d ∷ name) r = clean_parts (c ∷ (dir ++ (slash ∷ d ∷ name))) r

abs-clean : (cwd s : Str) → is_rooted s ≡ true → abs cwd s ≡ clean s
unfolding abs
abs-clean cwd s r = rw r refl

is_within-Inside :
    (cwd dir name : Str)
    → is_rooted dir ≡ true
    → clean dir ≡ dir
    → dir ≢ slash ∷ []
    → is_within cwd dir (join dir name) ≡ true
    → Inside dir (join dir name)
unfolding is_within
is_within-Inside cwd dir name r c n e =
    let (ps, hp, qp) = clean_parts dir r in
    let (ts, ht, qt) = join_parts dir name r in
    let dir_parts : dir ≡ render true ps = sym c ∙ qp in
    let below : is_below (render true ps) (render true ts) ≡ true =
      sym (
        ap (λ x. is_below x (abs cwd (join dir name))) (abs-clean cwd dir r ∙ qp)
        ∙ ap (is_below (render true ps)) (
            ap (abs cwd) qt
            ∙ abs-clean cwd (render true ts) (rooted_render ts)
            ∙ clean-render ts ht))
      ∙ e in
    let (rest, q) = is_below-parts ps ts (λ z. n (dir_parts ∙ ap (render true) z)) hp ht below in
    record {
      parts = ps;
      more = rest;
      are_parts = subst (All IsPart) q ht;
      dir_is = dir_parts;
      path_is = qt ∙ ap (render true) q;
    }

call_keeps :
    (dir : Str) (e : Effect) (d : Disk)
    → IsSafe dir e
    → All (IsSafe dir) d.tables
    → All (IsSafe dir) (call e d).1.tables
unfolding call
call_keeps dir e d s h = statement_keeps (All (IsSafe dir)) (λ done. (ok tt, e ∷ done)) d h (s, h)

after_keeps :
    {A : Type 0} (dir : Str) (r : Result (Unit {0}) × Disk) (next : Disk → Result A × Disk)
    → All (IsSafe dir) r.1.tables
    → ((d : Disk) → All (IsSafe dir) d.tables → All (IsSafe dir) (next d).1.tables)
    → All (IsSafe dir) (after r next).1.tables
after_keeps dir (ok x, d) next h k = k d h
after_keeps dir (err e, d) next h k = h

unzip_entry_keeps :
    (dir path : Str) (e : Entry) (d : Disk)
    → Inside dir path
    → All (IsSafe dir) d.tables
    → All (IsSafe dir) (unzip_entry path e d).1.tables
unfolding unzip_entry
unzip_entry_keeps dir path e d i h = elim (Bool-cases e.is_dir) [
  | inl b ↦ rw b (call_keeps dir (makes path) d (inl i) h)
  | inr b ↦ rw b (
      after_keeps dir (call (makes (dir_of path)) d) _
        (call_keeps dir (makes (dir_of path)) d (inr (path, i, refl)) h)
        (λ u hu.
          after_keeps dir (call (opens path) u) _ (call_keeps dir (opens path) u i hu)
            (λ v hv. hv)))
]

unzip_entries_keeps :
    (cwd dir : Str) (es : List Entry) (d : Disk)
    → is_rooted dir ≡ true
    → clean dir ≡ dir
    → dir ≢ slash ∷ []
    → All (IsSafe dir) d.tables
    → All (IsSafe dir) (unzip_entries cwd dir es d).1.tables
unfolding unzip_entries
unzip_entries_keeps cwd dir [] d r c n h = h
unzip_entries_keeps cwd dir (e ∷ es) d r c n h =
    elim (Bool-cases (is_within cwd dir (join dir e.name))) [
      | inl w ↦ rw w (
          after_keeps dir (unzip_entry (join dir e.name) e d) _
            (unzip_entry_keeps dir (join dir e.name) e d (is_within-Inside cwd dir e.name r c n w)
              h)
            (λ u hu. unzip_entries_keeps cwd dir es u r c n hu))
      | inr w ↦ rw w h
    ]

-- Whatever the names in the archive, and wherever the extraction stops: every file that unzipTo opens
-- lies inside the directory, and every directory that it makes lies inside it or is the parent of a
-- path that does. The directory is an absolute clean path other than the root.
pub unzip_to-IsSafe :
    (cwd dir : Str) (archive : Result (List Entry)) (d : Disk)
    → is_rooted dir ≡ true
    → clean dir ≡ dir
    → dir ≢ slash ∷ []
    → All (IsSafe dir) d.tables
    → All (IsSafe dir) (unzip_to cwd dir archive d).1.tables
unfolding unzip_to
unzip_to-IsSafe cwd dir (err e) d r c n h = h
unzip_to-IsSafe cwd dir (ok es) d r c n h = unzip_entries_keeps cwd dir es d r c n h
