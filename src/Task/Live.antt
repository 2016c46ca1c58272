-- ===== src/Task/Live.antt =====
-- internal/api/tasks/tasks.go, RegisterLogStream, over internal/hub/sinks.go: what a client of a log
-- stream gets of the whole log.
use crawler_lite.Sink.Flow.{Flow}
use crawler_lite.Task.Stream.{message, ping, client_gone, Turn}
use crawler_lite.Prelude.Base.{false, ◌≡◌, true, List, [], ◌∷◌, ◌++◌}
use crawler_lite.Prelude.Text.{Str, is_empty}
use crawler_lite.Result.{Result, ok}
use crawler_lite.Sink.Model.{World, find_object}
use crawler_lite.Sink.Log.{bytes_of}

abbrev pub IsLine : Str → Type 0
IsLine s = is_empty s ≡ false

-- The lines with a newline between any two.
joined : List Str → Str
joined [] = []
joined (l ∷ []) = l
joined (l ∷ m ∷ ls) = l ++ (10 ∷ joined (m ∷ ls))

-- The object store's answer in a world of the sink.
abbrev pub download_from : World → Str → Result Str
download_from w key = ok (bytes_of (find_object key w.objects))

-- What a subscriber's loop does where no write fails and the client stays: each line that is published
-- comes as a message, once and in order, with pings in between, and the loop ends after the last one.
pub data Watches : List Str → List Turn → Type 0 where
  over : Watches [] []
  left : (rest : List Turn) → Watches [] (client_gone ∷ rest)
  pinged :
      {lines : List Str} {turns : List Turn}
      → Watches lines turns
      → Watches lines (ping true ∷ turns)
  got :
      (l : Str) {lines : List Str} {turns : List Turn}
      → Watches lines turns
      → Watches (l ∷ lines) (message l true ∷ turns)
