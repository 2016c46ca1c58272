-- ===== src/Sink/Index.antt =====
-- internal/repository/artifacts.go, UpsertLogIndex: the row of a task after any upserts.
use crawler_lite.Prelude.Base.{
  ℕ, ◌+◌, ◌==◌, ◌≡◌, refl, sym, ◌∙◌, inl, inr, Bool-cases, Option, none, some, List, [], ◌∷◌,
  length, length-append, if◌then◌else◌, arith,
}
use crawler_lite.Sink.Model.{Counts, LogIndexUpsert}
use crawler_lite.Prelude.Int.{ℤ}
use crawler_lite.Prelude.Text.{Str, str_eq, str_eq_iff}
use crawler_lite.Sink.Log.{bytes_added, jsonl}
use crawler_lite.Sink.Tables.{LogIndex}
use crawler_lite.Sink.Rows.{set_count, override, put_index, find_index}

-- The rows after upserts, the latest of which stands first; the clock gives the time of each.
unfoldable pub index_of : (ℕ → ℤ) → List LogIndexUpsert → List LogIndex
index_of clock [] = []
index_of clock (u ∷ us) = put_index (clock (length us)) u (index_of clock us)

abbrev pub bytes_in : Option LogIndex → ℕ
bytes_in none = 0
bytes_in (some r) = r.bytes

abbrev pub lines_of : Option LogIndex → ℕ
lines_of none = 0
lines_of (some r) = r.line_count

abbrev pub levels_in : Option LogIndex → Counts
levels_in none = []
levels_in (some r) = r.level_counts

-- Sums over the upserts of a task.
abbrev pub sum_of : (LogIndexUpsert → ℕ) → ℕ → List LogIndexUpsert → ℕ
sum_of f task [] = 0
sum_of f task (u ∷ us) =
    let rest = sum_of f task us in if u.task_id == task then rest + f u else rest

-- The entry of a level, and that of the first map or else of the second.
abbrev pub find_count : Str → Counts → Option ℕ
find_count k [] = none
find_count k ((j, n) ∷ cs) = if str_eq j k then some n else find_count k cs

abbrev first_of : Option ℕ → Option ℕ → Option ℕ
first_of (some n) o = some n
first_of none o = o

-- The count of a level in the latest upsert of the task that has the level.
abbrev pub last_count : Str → ℕ → List LogIndexUpsert → Option ℕ
last_count k task [] = none
last_count k task (u ∷ us) =
    let rest = last_count k task us in
    if u.task_id == task then first_of (find_count k u.level_counts) rest else rest

find-set_count :
    (j k : Str) (n : ℕ) (cs : Counts)
    → find_count k (set_count j n cs) ≡ (if str_eq j k then some n else find_count k cs)
find-set_count j k n [] = refl
find-set_count j k n ((i, m) ∷ cs) =
    ground (arith, find-set_count j k n cs, str_eq_iff i j, str_eq_iff i k, str_eq_iff j k)

find-override :
    (k : Str) (l r : Counts)
    → find_count k (override l r) ≡ first_of (find_count k r) (find_count k l)
find-override k l [] = refl
find-override k l ((j, n) ∷ cs) =
    find-set_count j k n (override l cs)
    ∙ elim (Bool-cases (str_eq j k)) [ inl e ↦ rw e refl | inr e ↦ rw e (find-override k l cs) ]

first_of-none : (o : Option ℕ) → first_of o none ≡ o
first_of-none none = refl
first_of-none (some n) = refl

put_index-levels :
    (k : Str) (task : ℕ) (now : ℤ) (u : LogIndexUpsert) (rows : List LogIndex)
    → find_count k (levels_in (find_index task (put_index now u rows))) ≡ (
        if u.task_id == task
        then first_of
            (find_count k u.level_counts)
            (find_count k (levels_in (find_index task rows)))
        else find_count k (levels_in (find_index task rows)))
put_index-levels k task now u [] = elim (Bool-cases (u.task_id == task)) [
  | inl e ↦ rw e (sym (first_of-none (find_count k u.level_counts)))
  | inr e ↦ rw e refl
]
put_index-levels k task now u (r ∷ rs) =
    ground (arith, find-override k r.level_counts u.level_counts, put_index-levels k task now u rs)

pub put_index-bytes :
    (task : ℕ) (now : ℤ) (u : LogIndexUpsert) (rows : List LogIndex)
    → bytes_in (find_index task (put_index now u rows)) ≡ (
        if u.task_id == task
        then bytes_in (find_index task rows) + u.add_bytes
        else bytes_in (find_index task rows))
put_index-bytes task now u [] = ground arith
put_index-bytes task now u (r ∷ rs) = ground (arith, put_index-bytes task now u rs)

put_index-lines :
    (task : ℕ) (now : ℤ) (u : LogIndexUpsert) (rows : List LogIndex)
    → lines_of (find_index task (put_index now u rows)) ≡ (
        if u.task_id == task
        then lines_of (find_index task rows) + u.add_lines
        else lines_of (find_index task rows))
put_index-lines task now u [] = ground arith
put_index-lines task now u (r ∷ rs) = ground (arith, put_index-lines task now u rs)

pub length-jsonl : (ls : List Str) → length (jsonl ls) ≡ bytes_added ls
length-jsonl [] = refl
length-jsonl (l ∷ ls) = omega (arith, length-append l (10 ∷ jsonl ls), length-jsonl ls)

-- The row of a task after any sequence of upserts whose statements succeed: its bytes and its lines are the
-- sums of what the upserts add, while the count of a level is that of the latest upsert that has the
-- level.
pub index_lem :
    (clock : ℕ → ℤ) (task : ℕ) (k : Str) (us : List LogIndexUpsert)
    → let row = find_index task (index_of clock us) in
      (bytes_in row ≡ sum_of (λ u. u.add_bytes) task us)
      × (lines_of row ≡ sum_of (λ u. u.add_lines) task us)
      × (find_count k (levels_in row) ≡ last_count k task us)
unfolding index_of
index_lem clock task k [] = (refl, refl, refl)
index_lem clock task k (u ∷ us) =
    let (b, l, c) = index_lem clock task k us in
    let now = clock (length us) in
    let rows = index_of clock us in
    (
      put_index-bytes task now u rows ∙ rw b refl,
      put_index-lines task now u rows ∙ rw l refl,
      put_index-levels k task now u rows ∙ rw c refl,
    )
