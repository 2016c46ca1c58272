-- ===== src/Runner/Connection.antt =====
-- internal/runner/worker.go: Run, connectOnce, handleMaster and pumpOutbox: the outbox over the connections.
use crawler_lite.Prelude.Base.{
  ℕ, suc, Bool, true, false, Option, none, some, List, [], ◌∷◌, ◌++◌, length, ltb, if◌then◌else◌,
}
use crawler_lite.Prelude.Text.{codes}
use crawler_lite.Result.{Error, failure, wrapped, Result, ok, err}
use crawler_lite.Hub.Model.{WorkerMsg, MasterMsg, welcome, assign_task, cancel_task, ping}
use crawler_lite.Runner.Worker.{Occurrence, starts, cancels, next_backoff}

-- What the calls of gRPC answer while a stream is opened.
pub record Opening : Type 0 where
  pub dial : Option Error
  pub connect : Option Error
  pub send_hello : Option Error
  pub first : Result MasterMsg

abbrev pub welcomed : Result MasterMsg → Result ℕ
welcomed (err e) = err (wrapped (codes "recv welcome") e)
welcomed (ok (welcome session)) = ok session
welcomed (ok _) = err (failure (codes "expected Welcome as first master frame"))

-- connectOnce up to the start of its goroutines: the session, or the error that it returns.
unfoldable pub open_stream : Opening → Result ℕ
open_stream o = elim o.dial [
  | some e ↦ err (wrapped (codes "dial") e)
  | none ↦ elim o.connect [
    | some e ↦ err (wrapped (codes "connect") e)
    | none ↦ elim o.send_hello [
      | some e ↦ err (wrapped (codes "send hello") e)
      | none ↦ welcomed o.first
    ]
  ]
]

-- handleMaster: what a frame of the master makes of the worker.
unfoldable pub handle_master : MasterMsg → List Occurrence
handle_master (assign_task a) = starts a.task_id ∷ []
handle_master (cancel_task id) = cancels id ∷ []
handle_master ping = []
handle_master (welcome session) = []

-- A frame that the pump took, and whether its Send answered without an error.
pub record Popped : Type 0 where
  pub frame : WorkerMsg
  pub send_ok : Bool

-- `outbox` is the channel, and `enqueued` all that went into it, the first one first. `pumping` says
-- whether pumpOutbox runs, and `opened` counts the streams on which it has run.
pub record Link : Type 0 where
  pub outbox : List WorkerMsg
  pub enqueued : List WorkerMsg
  pub popped : List Popped
  pub pumping : Bool
  pub opened : ℕ

abbrev pub outbox_cap : ℕ
outbox_cap = 64

unfoldable pub new_link : Link
new_link = record { outbox = []; enqueued = []; popped = []; pumping = false; opened = 0 }

-- A goroutine puts a frame; a full channel makes it wait, and nothing happens.
unfoldable pub put : WorkerMsg → Link → Link
put m l =
    if ltb (length l.outbox) outbox_cap
    then record l { outbox = l.outbox ++ (m ∷ []); enqueued = l.enqueued ++ (m ∷ []) }
    else l

abbrev pub taken : Bool → List WorkerMsg → Link → Link
taken sent [] l = l
taken sent (m ∷ rest) l = record l {
  outbox = rest;
  popped = l.popped ++ (record { frame = m; send_ok = sent } ∷ []);
  pumping = sent;
}

-- A round of pumpOutbox: it takes a frame and sends it; an error ends it.
unfoldable pub pump : Bool → Link → Link
pump sent l = if l.pumping then taken sent l.outbox l else l

-- A stream is opened, and its pump starts; the one before has ended.
unfoldable pub begin : Result ℕ → Link → Link
begin (err e) l = l
begin (ok session) l = if l.pumping then l else record l { pumping = true; opened = suc l.opened }

-- The stream ends: connectOnce cancels the context and waits for the pump.
unfoldable pub finish : Link → Link
finish l = record l { pumping = false }

pub data Happening : Type 0 where
  opens : Opening → Happening
  puts : WorkerMsg → Happening
  pumps : Bool → Happening
  closes : Happening

unfoldable pub step : Happening → Link → Link
unfolding put pump begin finish open_stream
step (opens o) l = begin (open_stream o) l
step (puts m) l = put m l
step (pumps sent) l = pump sent l
step closes l = finish l

unfoldable pub run : List Happening → Link → Link
unfolding step
run [] l = l
run (h ∷ rest) l = run rest (step h l)

-- How connectOnce ends: without an error, with that of a cancelled context, or with another.
pub data End : Type 0 where
  at_eof cancelled broken : End

abbrev pub is_broken : End → Bool
is_broken broken = true
is_broken _ = false

-- Run: the waits, in seconds, after each of the connections.
unfoldable pub waits : ℕ → List End → List ℕ
unfolding next_backoff
waits backoff [] = []
waits backoff (e ∷ rest) =
    let later = waits (next_backoff (is_broken e) backoff) rest in
    if is_broken e then backoff ∷ later else 0 ∷ later
