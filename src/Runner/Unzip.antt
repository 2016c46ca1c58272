-- ===== src/Runner/Unzip.antt =====
-- internal/runner/executor.go: prepareDir, unzipTo and isWithin. The state is what has been done to the
-- disk, the latest first, with the outcomes of the operating system's calls to come.
use crawler_lite.Prelude.Base.{
  Bool, ◌&&◌, ◌||◌, List, [], ◌∷◌, ◌++◌, length, take, drop, ltb, if◌then◌else◌,
}
use crawler_lite.Prelude.Text.{Str, codes, str_eq, is_empty}
use crawler_lite.Prelude.Path.{join, abs, dir_of, is_rooted}
use crawler_lite.Result.{failure, wrapped, Result, ok, err}
use crawler_lite.Store.{Store, statement}

pub data Effect : Type 0 where
  makes opens removes temps : Str → Effect

abbrev pub Disk : Type 0
Disk = Store (List Effect)

-- A call that can fail.
unfoldable pub call : Effect → Disk → Result (Unit {0}) × Disk
unfolding statement
call e = statement (λ done. (ok tt, e ∷ done))

-- What follows a call that succeeds.
abbrev pub after :
    {A : Type 0} → Result (Unit {0}) × Disk → (Disk → Result A × Disk) → Result A × Disk
after (ok _, d) next = next d
after (err e, d) next = (err e, d)

-- An entry of the archive; `body` is the outcome of opening and copying its content.
pub record Entry : Type 0 where
  pub name : Str
  pub is_dir : Bool
  pub body : Result (Unit {0})

-- `c[:len(p)] == p && c[len(p)] == '/'`, or equal
abbrev pub is_below : Str → Str → Bool
is_below p c =
    str_eq p c
    || (ltb (length p) (length c)
        && (str_eq (take (length p) c) p && is_rooted (drop (length p) c)))

unfoldable pub is_within : Str → Str → Str → Bool
unfolding abs
is_within cwd parent child = is_below (abs cwd parent) (abs cwd child)

-- One entry, behind the check of its path.
unfoldable pub unzip_entry : Str → Entry → Disk → Result (Unit {0}) × Disk
unfolding call dir_of
unzip_entry path e d =
    if e.is_dir
    then call (makes path) d
    else after (call (makes (dir_of path)) d) (λ d. after (call (opens path) d) (λ d. (e.body, d)))

-- The loop of unzipTo.
unfoldable pub unzip_entries : Str → Str → List Entry → Disk → Result (Unit {0}) × Disk
unfolding is_within join unzip_entry
unzip_entries cwd dir [] d = (ok tt, d)
unzip_entries cwd dir (e ∷ es) d =
    let path = join dir e.name in
    let rest = unzip_entries cwd dir es in
    if is_within cwd dir path
    then after (unzip_entry path e d) rest
    else (err (failure (codes "invalid path in zip: " ++ e.name)), d)

-- unzipTo, on the archive that zip.NewReader reads.
unfoldable pub unzip_to : Str → Str → Result (List Entry) → Disk → Result (Unit {0}) × Disk
unfolding unzip_entries
unzip_to cwd dir (err e) d = (err e, d)
unzip_to cwd dir (ok es) d = unzip_entries cwd dir es d

-- The end of prepareDir, behind the unzip: a failure removes the directory, whose removal is not checked.
abbrev pub unzipped : Str → Result (Unit {0}) × Disk → Result Str × Disk
unzipped dir (ok _, d) = (ok dir, d)
unzipped dir (err e, d) = (err (wrapped (codes "unzip") e), (call (removes dir) d).1)

-- prepareDir. `download` is the answer of the object store, `read_zip` archive/zip's reader, and
-- `temp` the fresh directory that os.MkdirTemp chooses.
unfoldable pub prepare_dir :
    Str → Str → Str → Str → Result Str → (Str → Result (List Entry)) → Disk → Result Str × Disk
unfolding unzip_to call
prepare_dir cwd work_dir temp source_key download read_zip d =
    if is_empty source_key
    then (err (failure (codes "assign has no source_key")), d)
    else elim download [
      | err e ↦ (err (wrapped (codes "download source") e), d)
      | ok bytes ↦ after (call (makes work_dir) d) (λ d.
          after (call (temps temp) d) (λ d. unzipped temp (unzip_to cwd temp (read_zip bytes) d)))
    ]
