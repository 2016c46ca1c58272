-- ===== src/Spider/Source.antt =====
-- internal/gitsource/syncer.go: a checkout, its archive, and the upload under a versioned key.
use crawler_lite.Result.{Error, failure, wrapped, Result, ok, err}
use crawler_lite.Prelude.Base.{ℕ, Option, none, some, List, [], ◌∷◌, ◌++◌, if◌then◌else◌}
use crawler_lite.Prelude.Int.{ℤ, pos, ◌+ℤ◌, wrap32}
use crawler_lite.Prelude.Text.{Str, codes, str_eq, is_empty}
use crawler_lite.Prelude.Path.{slash}
use crawler_lite.Notify.Format.{decimal, decimal_ℤ}
use crawler_lite.Store.{Store, statement}
use crawler_lite.Spider.Model.{Spider}
use crawler_lite.Spider.Repo.{or_main}

-- What filepath.WalkDir visits, in its order: a directory by its name, a regular file with what
-- os.ReadFile answers, a symbolic link, or an entry that it cannot read.
mutual
  pub data Node : Type 0 where
    dir : Str → Nodes → Node
    file : Str → Result Str → Node
    link : Str → Node
    unreadable : Error → Node

  pub data Nodes : Type 0 where
    end : Nodes
    more : Node → Nodes → Nodes

-- An archive as its entries, in order.
abbrev pub Archive : Type 0
Archive = List (Str × Str)

-- `path` is the relative path of the directory, with a slash behind each name.
abbrev pub read : Str → Result Str → Archive → Result Archive
read rel (err e) zipped = err e
read rel (ok body) zipped = ok (zipped ++ ((rel, body) ∷ []))

abbrev pub then_zip : Result Archive → (Archive → Result Archive) → Result Archive
then_zip (err e) next = err e
then_zip (ok zipped) next = next zipped

unfoldable mutual
  pub zip_node : Str → Node → Archive → Result Archive
  zip_node path (dir name nodes) zipped =
      let inside = zip_nodes (path ++ name ++ (slash ∷ [])) nodes zipped in
      if str_eq name (codes ".git") then ok zipped else inside
  zip_node path (file name body) zipped = read (path ++ name) body zipped
  zip_node path (link name) zipped =
      err (failure (codes "symlinks are not allowed in spider source: " ++ path ++ name))
  zip_node path (unreadable e) zipped = err e

  pub zip_nodes : Str → Nodes → Archive → Result Archive
  zip_nodes path end zipped = ok zipped
  zip_nodes path (more n ns) zipped = then_zip (zip_node path n zipped) (zip_nodes path ns)

-- zipDirExcludingGit
unfoldable pub zip_dir_excluding_git : Nodes → Result Archive
unfolding zip_nodes
zip_dir_excluding_git nodes = zip_nodes [] nodes []

-- A clone: its head, and its files.
pub record Checkout : Type 0 where
  pub head : Result Str
  pub nodes : Nodes

-- The file system's and git's answers.
pub record Git : Type 0 where
  pub mkdir_temp : Result (Unit {0})
  pub clone : Str → Str → Result Checkout

-- The bucket, by keys.
abbrev pub Bucket : Type 0
Bucket = List (Str × Archive)

abbrev pub find_object : Str → Bucket → Option Archive
find_object key [] = none
find_object key (o ∷ os) = if str_eq o.0 key then some o.1 else find_object key os

unfoldable pub upload : Str → Archive → Store Bucket → Result (Unit {0}) × Store Bucket
unfolding statement
upload key zipped = statement (λ objects. (ok tt, (key, zipped) ∷ objects))

unfoldable pub source_key : ℕ → ℤ → Str
unfolding decimal decimal_ℤ
source_key id version =
    codes "spiders/" ++ decimal id ++ codes "/source/v" ++ decimal_ℤ version ++ codes ".zip"

-- What Sync answers: the key, the commit and the new version.
pub record Synced : Type 0 where
  pub key : Str
  pub commit : Str
  pub version : ℤ

-- The steps of Sync, each behind the one before.
abbrev pub uploaded : Synced → Result (Unit {0}) × Store Bucket → Result Synced × Store Bucket
uploaded s (err e, b) = (err (wrapped (codes "upload") e), b)
uploaded s (ok _, b) = (ok s, b)

unfoldable pub upload_zip :
    Spider → Str → Result Archive → Store Bucket → Result Synced × Store Bucket
unfolding upload source_key
upload_zip sp commit (err e) b = (err (wrapped (codes "zip") e), b)
upload_zip sp commit (ok zipped) b =
    let version = wrap32 (sp.source_version +ℤ pos 1) in
    let key = source_key sp.id version in
    uploaded (record { key = key; commit = commit; version = version }) (upload key zipped b)

unfoldable pub with_head : Spider → Result Str → Nodes → Store Bucket → Result Synced × Store Bucket
unfolding upload_zip zip_dir_excluding_git
with_head sp (err e) nodes b = (err (wrapped (codes "head") e), b)
with_head sp (ok commit) nodes b = upload_zip sp commit (zip_dir_excluding_git nodes) b

unfoldable pub with_clone : Spider → Result Checkout → Store Bucket → Result Synced × Store Bucket
unfolding with_head
with_clone sp (err e) b = (err (wrapped (codes "clone") e), b)
with_clone sp (ok c) b = with_head sp c.head c.nodes b

unfoldable pub with_temp :
    Git → Spider → Result (Unit {0}) → Store Bucket → Result Synced × Store Bucket
unfolding with_clone
with_temp g sp (err e) b = (err (wrapped (codes "mktmp") e), b)
with_temp g sp (ok _) b = with_clone sp (g.clone sp.git_url (or_main sp.git_branch)) b

unfoldable pub sync_source : Git → Spider → Store Bucket → Result Synced × Store Bucket
unfolding with_temp
sync_source g sp b =
    if is_empty sp.git_url
    then (err (failure (codes "spider has no git_url")), b)
    else with_temp g sp g.mkdir_temp b
