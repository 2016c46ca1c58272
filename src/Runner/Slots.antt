-- ===== src/Runner/Slots.antt =====
-- internal/runner/worker.go: the slots over any sequence of events, and when all tasks have ended.
use crawler_lite.Runner.Worker.{
  disconnects, beats, starts, cancels, ends, find_entry, Occurrence, end_found, run, step, find_job,
  Worker, Job, Entry, add, start_task, end_task, cancel_task, disconnect, beat, delete_entry,
  delete_job, cancel_job, cancel_all,
}
use crawler_lite.Prelude.Base.{
  ==_iff, ◌≢◌, if◌then◌else◌, ◌≡◌, refl, sym, ap, ◌∙◌, inl, inr, ℕ, suc, ◌==◌, Bool, true, false,
  Option, none, some, List, [], ◌∷◌, length, All, arith, Bool-cases,
}
use mathlib.Core.Option.{some-injective}
use crawler_lite.Prelude.Int.{ℤ, pos, negsuc, ◌+ℤ◌, ◌-ℤ◌, wrap32}
use crawler_lite.Runner.Outcome.{Outcome}

one_less : (c : ℤ) (n : ℕ) → wrap32 (wrap32 (c -ℤ pos n) +ℤ negsuc 0) ≡ wrap32 (c -ℤ pos (suc n))
unfolding wrap32 ◌+ℤ◌ ◌-ℤ◌
one_less c n = ground arith

one_more : (c : ℤ) (n : ℕ) → wrap32 (wrap32 (c -ℤ pos (suc n)) +ℤ pos 1) ≡ wrap32 (c -ℤ pos n)
unfolding wrap32 ◌+ℤ◌ ◌-ℤ◌
one_more c n = ground arith

abbrev pub has_task : ℕ → List Job → Bool
has_task id [] = false
has_task id (j ∷ js) = if j.task_id == id then true else has_task id js

-- The counters tell the goroutines, and every cancel function is of a task that runs.
pub record IsCounted (c : ℤ) (w : Worker) : Type 0 where
  pub free : w.free_slots ≡ wrap32 (c -ℤ pos (length w.jobs))
  pub count : w.running_count ≡ wrap32 (pos (length w.jobs))
  pub known : All (λ (e : Entry). has_task e.task_id w.jobs ≡ true) w.running

delete-known :
    (id : ℕ) (js ks : List Job) (es : List Entry)
    → ((i : ℕ) → (i == id) ≡ false → has_task i js ≡ true → has_task i ks ≡ true)
    → All (λ (e : Entry). has_task e.task_id js ≡ true) es
    → All (λ (e : Entry). has_task e.task_id ks ≡ true) (delete_entry id es)
delete-known id js ks [] k h = tt
delete-known id js ks (e ∷ es) k (h, hs) = elim (Bool-cases (e.task_id == id)) [
  | inl q ↦ rw q (delete-known id js ks es k hs)
  | inr q ↦ rw q (k e.task_id q h, delete-known id js ks es k hs)
]

other : (i a b : ℕ) → (a == i) ≡ true → (i == b) ≡ false → a ≢ b
other i a b q e p = ground (arith, q, e, p)

-- The job that ends is the first with its serial.
delete-has_task :
    (n : ℕ) (j : Job) (js : List Job) (i : ℕ)
    → find_job n js ≡ some j
    → (i == j.task_id) ≡ false
    → has_task i js ≡ true
    → has_task i (delete_job n js) ≡ true
delete-has_task n j [] i f e h = cc
delete-has_task n j (x ∷ xs) i f e h =
    cases (x.serial == n) (x.task_id == i) refl f h (λ f' h'. delete-has_task n j xs i f' e h')
  where
    cases :
        (b a : Bool)
        → (x.task_id == i) ≡ a
        → (if b then some x else find_job n xs) ≡ some j
        → (if a then true else has_task i xs) ≡ true
        → (find_job n xs ≡ some j → has_task i xs ≡ true → has_task i (delete_job n xs) ≡ true)
        → has_task i (if b then xs else x ∷ delete_job n xs) ≡ true
    cases true true q f h k =
        absurd
          (other i x.task_id j.task_id q e (ap (λ (y : Job). y.task_id) (some-injective x j f)))
    cases true false q f h k = h
    cases false true q f h k = rw q refl
    cases false false q f h k = rw q (k f h)

length-delete_job :
    (n : ℕ) (j : Job) (js : List Job)
    → find_job n js ≡ some j
    → length js ≡ suc (length (delete_job n js))
length-delete_job n j [] f = cc
length-delete_job n j (x ∷ xs) f = elim (Bool-cases (x.serial == n)) [
  | inl q ↦ rw q refl
  | inr q ↦ rw q (ap suc (length-delete_job n j xs (sym (rw q refl) ∙ f)))
]

one_fewer : (n : ℕ) → wrap32 (wrap32 (pos (suc n)) +ℤ negsuc 0) ≡ wrap32 (pos n)
unfolding wrap32 ◌+ℤ◌
one_fewer n = ground arith

one_further : (n : ℕ) → wrap32 (wrap32 (pos n) +ℤ pos 1) ≡ wrap32 (pos (suc n))
unfolding wrap32 ◌+ℤ◌
one_further n = ground arith

pub same_number : (n : ℕ) → (n == n) ≡ true
same_number n = ground arith

has_more : (i id : ℕ) (b : Bool) → b ≡ true → (if id == i then true else b) ≡ true
has_more i id b e = ground (arith, e)

start-IsCounted : (c : ℤ) (id : ℕ) (w : Worker) → IsCounted c w → IsCounted c (start_task id w)
unfolding start_task add
start-IsCounted c id w h = record {
  free = ap (λ z. wrap32 (z +ℤ negsuc 0)) h.free ∙ one_less c (length w.jobs);
  count = ap (λ z. wrap32 (z +ℤ pos 1)) h.count ∙ one_further (length w.jobs);
  known = (
    rw (same_number id) refl,
    delete-known id w.jobs
        (record { serial = w.next_serial; task_id = id; cancelled = false } ∷ w.jobs) w.running
        (λ i _ k. has_more i id (has_task i w.jobs) k) h.known,
  );
}

pub end-IsCounted :
    (c : ℤ) (j : Job) (o : Outcome) (w : Worker)
    → find_job j.serial w.jobs ≡ some j
    → IsCounted c w
    → IsCounted c (end_task j o w)
unfolding end_task add
end-IsCounted c j o w f h =
    let m = length (delete_job j.serial w.jobs) in
    let e = length-delete_job j.serial j w.jobs f in
    record {
      free =
          ap (λ z. wrap32 (z +ℤ pos 1)) (h.free ∙ ap (λ n. wrap32 (c -ℤ pos n)) e) ∙ one_more c m;
      count = ap (λ z. wrap32 (z +ℤ negsuc 0)) (h.count ∙ ap (λ n. wrap32 (pos n)) e) ∙ one_fewer m;
      known =
          delete-known j.task_id w.jobs (delete_job j.serial w.jobs) w.running
            (λ i q k. delete-has_task j.serial j w.jobs i f q k) h.known;
    }

-- Cancelling changes neither the number of the jobs nor their tasks.
cancel-has_task : (n i : ℕ) (js : List Job) → has_task i (cancel_job n js) ≡ has_task i js
cancel-has_task n i [] = refl
cancel-has_task n i (j ∷ js) = elim (Bool-cases (j.serial == n)) [
  | inl q ↦ rw q (ap (λ b. if j.task_id == i then true else b) (cancel-has_task n i js))
  | inr q ↦ rw q (ap (λ b. if j.task_id == i then true else b) (cancel-has_task n i js))
]

length-cancel_job : (n : ℕ) (js : List Job) → length (cancel_job n js) ≡ length js
length-cancel_job n [] = refl
length-cancel_job n (j ∷ js) = ap suc (length-cancel_job n js)

cancel_all-has_task : (i : ℕ) (js : List Job) → has_task i (cancel_all js) ≡ has_task i js
cancel_all-has_task i [] = refl
cancel_all-has_task i (j ∷ js) =
    ap (λ b. if j.task_id == i then true else b) (cancel_all-has_task i js)

length-cancel_all : (js : List Job) → length (cancel_all js) ≡ length js
length-cancel_all [] = refl
length-cancel_all (j ∷ js) = ap suc (length-cancel_all js)

same-known :
    (js ks : List Job) (es : List Entry)
    → ((i : ℕ) → has_task i ks ≡ has_task i js)
    → All (λ (e : Entry). has_task e.task_id js ≡ true) es
    → All (λ (e : Entry). has_task e.task_id ks ≡ true) es
same-known js ks [] k h = tt
same-known js ks (e ∷ es) k (h, hs) = (k e.task_id ∙ h, same-known js ks es k hs)

with_jobs-IsCounted :
    (c : ℤ) (w : Worker) (ks : List Job)
    → length ks ≡ length w.jobs
    → ((i : ℕ) → has_task i ks ≡ has_task i w.jobs)
    → IsCounted c w
    → IsCounted c (record w { jobs = ks })
with_jobs-IsCounted c w ks l k h = record {
  free = h.free ∙ ap (λ n. wrap32 (c -ℤ pos n)) (sym l);
  count = h.count ∙ ap (λ n. wrap32 (pos n)) (sym l);
  known = same-known w.jobs ks w.running k h.known;
}

find_job-serial : (n : ℕ) (j : Job) (js : List Job) → find_job n js ≡ some j → n ≡ j.serial
find_job-serial n j [] f = cc
find_job-serial n j (x ∷ xs) f = cases (x.serial == n) refl f (find_job-serial n j xs)
  where
    cases :
        (b : Bool)
        → (x.serial == n) ≡ b
        → (if b then some x else find_job n xs) ≡ some j
        → (find_job n xs ≡ some j → n ≡ j.serial)
        → n ≡ j.serial
    cases true q f k =
        sym ((==_iff x.serial n).0 q) ∙ ap (λ (y : Job). y.serial) (some-injective x j f)
    cases false q f k = k f

cancel-IsCounted :
    (c : ℤ) (o : Option ℕ) (w : Worker)
    → IsCounted c w
    → IsCounted c (elim o [ none ↦ w | some n ↦ record w { jobs = cancel_job n w.jobs } ])
cancel-IsCounted c none w h = h
cancel-IsCounted c (some n) w h =
    with_jobs-IsCounted c w (cancel_job n w.jobs) (length-cancel_job n w.jobs)
      (λ i. cancel-has_task n i w.jobs) h

end_found-IsCounted :
    (c : ℤ) (n : ℕ) (found : Option Job) (o : Outcome) (w : Worker)
    → find_job n w.jobs ≡ found
    → IsCounted c w
    → IsCounted c (end_found found o w)
end_found-IsCounted c n none o w f h = h
end_found-IsCounted c n (some j) o w f h =
    end-IsCounted c j o w (ap (λ m. find_job m w.jobs) (sym (find_job-serial n j w.jobs f)) ∙ f) h

step-IsCounted : (c : ℤ) (e : Occurrence) (w : Worker) → IsCounted c w → IsCounted c (step e w)
unfolding step cancel_task disconnect beat
step-IsCounted c (starts id) w h = start-IsCounted c id w h
step-IsCounted c (cancels id) w h = cancel-IsCounted c (find_entry id w.running) w h
step-IsCounted c (ends n o) w h = end_found-IsCounted c n (find_job n w.jobs) o w refl h
step-IsCounted c disconnects w h =
    with_jobs-IsCounted c w (cancel_all w.jobs) (length-cancel_all w.jobs)
      (λ i. cancel_all-has_task i w.jobs) h
step-IsCounted c beats w h = record { free = h.free; count = h.count; known = h.known }

pub run-IsCounted :
    (c : ℤ) (es : List Occurrence) (w : Worker) → IsCounted c w → IsCounted c (run es w)
unfolding run
run-IsCounted c [] w h = h
run-IsCounted c (e ∷ es) w h = run-IsCounted c es (step e w) (step-IsCounted c e w h)
