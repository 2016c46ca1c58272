-- ===== src/Task/Stream.antt =====
-- internal/api/tasks/tasks.go: RegisterLogStream and fetchHistorical. `verify` is VerifyToken, and the object
-- store's answers are a parameter.
use crawler_lite.Prelude.Base.{
  ℕ, ◌==◌, Bool, Option, none, some, List, [], ◌∷◌, ◌++◌, if◌then◌else◌,
}
use crawler_lite.Prelude.Int.{ℤ}
use crawler_lite.Prelude.Text.{Str, codes, is_empty}
use crawler_lite.Result.{Result, ok, err}
use crawler_lite.Api.Reply.{Reply, fail, path_int64, invalid_param}
use crawler_lite.Sink.Tables.{LogIndex}

-- A request that is answered, an upgrade that fails, or a stream of the task's log.
pub data Opened : Type 0 where
  answered : Reply (Unit {0}) → Opened
  not_upgraded : Opened
  streaming : ℕ → Opened

abbrev pub upgraded : Bool → Option ℕ → Opened
upgraded upgrade_ok none = answered (invalid_param (codes "id"))
upgraded upgrade_ok (some id) = if upgrade_ok then streaming id else not_upgraded

abbrev pub verified : {A : Type 0} → Bool → Option ℤ → Result A → Opened
verified upgrade_ok param (err e) = answered (fail 401 (codes "invalid token"))
verified upgrade_ok param (ok _) = upgraded upgrade_ok (path_int64 param)

-- The handler up to the upgrade.
unfoldable pub open_stream : {A : Type 0} → (Str → Result A) → Bool → Str → Option ℤ → Opened
unfolding path_int64
open_stream verify upgrade_ok token param =
    if is_empty token
    then answered (fail 401 (codes "missing token"))
    else verified upgrade_ok param (verify token)

-- A body without its last newline.
unfoldable pub trim_newline : Str → Str
trim_newline [] = []
trim_newline (c ∷ []) = if c == 10 then [] else c ∷ []
trim_newline (c ∷ d ∷ s) = c ∷ trim_newline (d ∷ s)

abbrev pub trimmed : Result Str → Result Str
trimmed (err e) = err e
trimmed (ok body) = ok (trim_newline body)

-- fetchHistorical, on the answer of GetLogIndex.
unfoldable pub fetch_historical : (Str → Result Str) → Result LogIndex → Result Str
unfolding trim_newline
fetch_historical download (err e) = err e
fetch_historical download (ok row) = trimmed (download row.log_key)

-- The frame of the catch-up, where there is one and it is sent. A failure of its write is passed over.
unfoldable pub catch_up : Bool → Result Str → List Str
catch_up sent (err e) = []
catch_up sent (ok hist) = if is_empty hist then [] else if sent then hist ∷ [] else []

-- A turn of the loop: the request's context or the client ends, the channel is closed, a message came, or
-- the ticker; a write may fail.
pub data Turn : Type 0 where
  context_done client_gone channel_closed : Turn
  message : Str → Bool → Turn
  ping : Bool → Turn

-- The frames that reach the client.
unfoldable pub forward : List Turn → List Str
forward [] = []
forward (message payload sent ∷ rest) =
    let later = forward rest in if sent then payload ∷ later else []
forward (ping sent ∷ rest) = let later = forward rest in if sent then later else []
forward (_ ∷ rest) = []

-- All that the client gets.
unfoldable pub stream : (Str → Result Str) → Result LogIndex → Bool → List Turn → List Str
unfolding fetch_historical catch_up forward
stream download row sent turns = catch_up sent (fetch_historical download row) ++ forward turns
