-- ===== src/Api/Reply.antt =====
-- internal/api/render/render.go and the handlers' pathInt64: replies as values.
use crawler_lite.Prelude.Base.{ℕ, ◌==◌, Option, none, some, ◌++◌, if◌then◌else◌}
use crawler_lite.Prelude.Int.{ℤ, pos, negsuc}
use crawler_lite.Prelude.Text.{Str, codes}

pub data Body (A : Type 0) : Type 0 where
  error_body : Str → Body A
  json : A → Body A
  no_body : Body A

pub record Reply (A : Type 0) : Type 0 where
  pub status : ℕ
  pub body : Body A

-- render.Error and render.JSON
abbrev pub fail : {A : Type 0} → ℕ → Str → Reply A
fail status message = record { status = status; body = error_body message }

abbrev pub send : {A : Type 0} → ℕ → A → Reply A
send status a = record { status = status; body = json a }

abbrev positive : ℤ → Option ℕ
positive (pos n) = if n == 0 then none else some n
positive (negsuc n) = none

-- pathInt64, on what strconv.ParseInt makes of the parameter.
unfoldable pub path_int64 : Option ℤ → Option ℕ
path_int64 none = none
path_int64 (some z) = positive z

abbrev pub invalid_param : {A : Type 0} → Str → Reply A
invalid_param key = fail 400 (codes "invalid " ++ key)

abbrev pub invalid_request : {A : Type 0} → Reply A
invalid_request = fail 400 (codes "invalid request body")
