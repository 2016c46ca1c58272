-- ===== src/Runner/Config.antt =====
-- internal/workerapp/config.go, Capabilities, and the defaults that Build of internal/workerapp/app.go fills in.
use crawler_lite.Prelude.Base.{ℕ, ◌==◌, List, [], ◌∷◌, if◌then◌else◌}
use crawler_lite.Prelude.Int.{ℤ, pos, leb_ℤ}
use crawler_lite.Prelude.Text.{Str, Unicode, codes, is_empty, trim_space}
use crawler_lite.Result.{failure, wrapped, Result, ok, err}

abbrev put_front : ℕ → List Str → List Str
put_front c [] = (c ∷ []) ∷ []
put_front c (p ∷ ps) = (c ∷ p) ∷ ps

-- strings.Split(s, ",")
unfoldable pub split_commas : Str → List Str
split_commas [] = [] ∷ []
split_commas (c ∷ s) =
    let rest = split_commas s in if c == b',' then [] ∷ rest else put_front c rest

-- The trimmed parts that are not empty.
unfoldable pub trimmed_parts : Unicode → List Str → List Str
trimmed_parts u [] = []
trimmed_parts u (p ∷ ps) =
    let part = trim_space u p in
    let rest = trimmed_parts u ps in if is_empty part then rest else part ∷ rest

unfoldable pub capabilities : Unicode → Str → List Str
unfolding split_commas trimmed_parts
capabilities u raw = trimmed_parts u (split_commas raw)

-- The identity of the worker and the number of its slots. `hostname` is the answer of os.Hostname.
pub record Identity : Type 0 where
  pub worker_id : Str
  pub concurrency : ℤ

abbrev pub at_least_one_slot : ℤ → ℤ
at_least_one_slot n = if leb_ℤ n (pos 0) then pos 4 else n

abbrev pub named : Str → Result Str → Result Str
named worker_id (err e) =
    if is_empty worker_id
    then err (wrapped (codes "WORKER_ID is required and hostname lookup failed") e)
    else ok worker_id
named worker_id (ok hostname) =
    if is_empty worker_id
    then if is_empty hostname
      then err (failure (codes "WORKER_ID is required and hostname lookup failed: %!w(<nil>)"))
      else ok hostname
    else ok worker_id

abbrev pub identified : ℤ → Result Str → Result Identity
identified concurrency (err e) = err e
identified concurrency (ok id) =
    ok (record { worker_id = id; concurrency = at_least_one_slot concurrency })

unfoldable pub identity : Str → ℤ → Result Str → Result Identity
identity worker_id concurrency hostname = identified concurrency (named worker_id hostname)
