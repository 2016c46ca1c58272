-- ===== src/Runner/Delivery.antt =====
-- internal/runner/worker.go, pumpOutbox: what becomes of every frame over all connections.
use mathlib.Core.Path.{subst}
use mathlib.Core.List.{append_assoc}
use crawler_lite.Prelude.Base.{
  ℕ, suc, ◌+◌, ◌≤◌, ◌≡◌, refl, sym, ap, ◌∙◌, inl, inr, Bool, true, false, Bool-cases, List, [], ◌∷◌,
  ◌++◌, length, length-append, ltb, if◌then◌else◌, arith,
}
use crawler_lite.Result.{Result, ok, err}
use crawler_lite.Hub.Model.{WorkerMsg}
use crawler_lite.Runner.Connection.{
  Popped, Link, outbox_cap, new_link, put, taken, pump, begin, finish, open_stream, Happening,
  opens, puts, pumps, closes, step, run,
}

abbrev pub frames : List Popped → List WorkerMsg
frames [] = []
frames (p ∷ ps) = p.frame ∷ frames ps

-- The frames that were taken and whose Send answered an error.
abbrev pub unsent : List Popped → ℕ
unsent [] = 0
unsent (p ∷ ps) = if p.send_ok then unsent ps else suc (unsent ps)

frames-append : (ps qs : List Popped) → frames (ps ++ qs) ≡ frames ps ++ frames qs
frames-append [] qs = refl
frames-append (p ∷ ps) qs = ap (λ fs. p.frame ∷ fs) (frames-append ps qs)

unsent-append : (ps qs : List Popped) → unsent (ps ++ qs) ≡ unsent ps + unsent qs
unsent-append [] qs = omega arith
unsent-append (p ∷ ps) qs = ground (arith, unsent-append ps qs)

abbrev pub spare : Bool → ℕ
spare true = 1
spare false = 0

-- Every frame was taken, in order, or waits in the outbox, which is within its capacity; and each stream
-- has lost at most one.
pub record Kept (l : Link) : Type 0 where
  pub in_order : l.enqueued ≡ frames l.popped ++ l.outbox
  pub within : length l.outbox ≤ outbox_cap
  pub few_unsent : unsent l.popped + spare l.pumping ≤ l.opened

if-Kept :
    (b : Bool) (x y : Link) → (b ≡ true → Kept x) → (b ≡ false → Kept y) → Kept (if b then x else y)
if-Kept true x y h k = h refl
if-Kept false x y h k = k refl

put-Kept : (m : WorkerMsg) (l : Link) → Kept l → Kept (put m l)
unfolding put
put-Kept m l k = elim (Bool-cases (ltb (length l.outbox) outbox_cap)) [
  | inr full ↦ rw full k
  | inl room ↦ rw room (record {
    in_order =
        ap (λ fs. fs ++ (m ∷ [])) k.in_order ∙ append_assoc (frames l.popped) l.outbox (m ∷ []);
    within = ground (arith, room, length-append l.outbox (m ∷ []));
    few_unsent = k.few_unsent;
  })
]

shorter :
    (m : WorkerMsg) (rest ms : List WorkerMsg)
    → ms ≡ m ∷ rest
    → length ms ≤ outbox_cap
    → length rest ≤ outbox_cap
shorter m rest ms e h =
    let h' : length (m ∷ rest) ≤ outbox_cap = subst (λ fs. length fs ≤ outbox_cap) e h in
    omega (arith, h')

-- A Send that answers an error ends the pump.
taken_unsent :
    (sent : Bool) (m : WorkerMsg) (l : Link)
    → l.pumping ≡ true
    → unsent l.popped + spare l.pumping ≤ l.opened
    → unsent (l.popped ++ (record { frame = m; send_ok = sent } ∷ [])) + spare sent ≤ l.opened
taken_unsent sent m l on h =
    let h' : unsent l.popped + 1 ≤ l.opened =
      subst (λ b. unsent l.popped + spare b ≤ l.opened) on h in
    let q = unsent-append l.popped (record { frame = m; send_ok = sent } ∷ []) in
    rw q (one_unsent sent (unsent l.popped) l.opened h')
  where
    one_unsent : (sent : Bool) (n o : ℕ) → n + 1 ≤ o → n + (if sent then 0 else 1) + spare sent ≤ o
    one_unsent true n o h = omega (arith, h)
    one_unsent false n o h = omega (arith, h)

taken-Kept :
    (sent : Bool) (ms : List WorkerMsg) (l : Link)
    → l.outbox ≡ ms
    → l.pumping ≡ true
    → Kept l
    → Kept (taken sent ms l)
taken-Kept sent [] l e on k = k
taken-Kept sent (m ∷ rest) l e on k =
    let p : Popped = record { frame = m; send_ok = sent } in
    record {
      in_order =
          k.in_order
          ∙ ap (λ fs. frames l.popped ++ fs) e
          ∙ sym (append_assoc (frames l.popped) (m ∷ []) rest)
          ∙ ap (λ fs. fs ++ rest) (sym (frames-append l.popped (p ∷ [])));
      within = shorter m rest l.outbox e k.within;
      few_unsent = taken_unsent sent m l on k.few_unsent;
    }

begin-Kept : (r : Result ℕ) (l : Link) → Kept l → Kept (begin r l)
unfolding begin
begin-Kept (err e) l k = k
begin-Kept (ok session) l k =
    if-Kept l.pumping _ _ (λ on. k)
      (λ off. record {
        in_order = k.in_order;
        within = k.within;
        few_unsent = omega (arith, k.few_unsent);
      })

step-Kept : (h : Happening) (l : Link) → Kept l → Kept (step h l)
unfolding step pump begin finish
step-Kept (puts m) l k = put-Kept m l k
step-Kept closes l k = record {
  in_order = k.in_order;
  within = k.within;
  few_unsent = omega (arith, k.few_unsent);
}
step-Kept (pumps sent) l k =
    if-Kept l.pumping _ _ (λ on. taken-Kept sent l.outbox l refl on k) (λ off. k)
step-Kept (opens o) l k = begin-Kept (open_stream o) l k

-- Over any connections of a worker, whichever fail and wherever: what went into the outbox was taken by a
-- pump, in order and once each, or still waits; the outbox is never over its capacity; and of the taken
-- frames, for at most one per stream that was opened did Send answer an error (an answer without one
-- does not say that the master received the frame).
pub run-Kept : (happenings : List Happening) (l : Link) → Kept l → Kept (run happenings l)
unfolding run
run-Kept [] l k = k
run-Kept (h ∷ rest) l k = run-Kept rest (step h l) (step-Kept h l k)

pub new_link-Kept : Kept new_link
unfolding new_link
new_link-Kept = record { in_order = refl; within = omega arith; few_unsent = omega arith }
