-- ===== src/Sink/Keeping.antt =====
-- internal/hub/sinks.go, LogSinkPubsub: the text of a log over any run.
use mathlib.Core.List.{append_assoc, append-nil}
use crawler_lite.Prelude.Base.{
  arith, ℕ, ◌<◌, ◌^◌, ◌≡◌, refl, sym, ap, ◌∙◌, true, List, [], ◌∷◌, ◌++◌, All,
}
use crawler_lite.Prelude.Text.{Str}
use crawler_lite.Hub.Model.{LogLine}
use crawler_lite.Sink.Log.{jsonl}
use crawler_lite.Sink.Flow.{
  Action, writes, takes, stores, Flow, act, run, is_safe, text_of, written,
}
use crawler_lite.Sink.Lookup.{jsonl-append}
use crawler_lite.Sink.Steps.{IsSmall, act-text, act-IsSmall}

abbrev pub IsSafe : Action → Type 0
IsSafe a = is_safe a ≡ true

written-cons :
    (encode : LogLine → Str) (t : ℕ) (a : Action) (rest : List Action)
    → written encode t (a ∷ rest) ≡ written encode t (a ∷ []) ++ written encode t rest
written-cons encode t (writes p l) rest = ground arith
written-cons encode t (takes k) rest = refl
written-cons encode t (stores q) rest = refl

-- Whatever the interleaving of writes with the two halves of flushes, and whether uploads succeed or
-- fail: the stored object, the lines in flight and the buffer of a task hold together what they
-- held before, followed by every line written since, once each and in order. The condition is that
-- no upload succeeds after a stat or a download that failed.
pub run-text :
    (encode : LogLine → Str) (t : ℕ) (actions : List Action) (f : Flow)
    → All IsSafe actions
    → IsSmall f.flight
    → t < 2 ^ 63
    → text_of t (run encode actions f) ≡ text_of t f ++ jsonl (written encode t actions)
unfolding run
run-text encode t [] f safe small bound = sym (append-nil (text_of t f))
run-text encode t (a ∷ rest) f (safe, later) small bound =
    run-text encode t rest (act encode a f) later (act-IsSmall encode a f safe small) bound
    ∙ ap (λ s. s ++ jsonl (written encode t rest)) (act-text encode t a f safe small bound)
    ∙ append_assoc (text_of t f) (jsonl (written encode t (a ∷ []))) (jsonl (written encode t rest))
    ∙ ap (λ s. text_of t f ++ s)
        (sym (jsonl-append (written encode t (a ∷ [])) (written encode t rest))
          ∙ ap jsonl (sym (written-cons encode t a rest)))
