-- ===== src/Hub/Placement.antt =====
-- Where Assign places a task, and what it leaves alone.
use crawler_lite.Hub.Lookups.{find-update_same, find-update_other, find-delete_other}
use crawler_lite.Hub.Invariant.{find_session-id}
use crawler_lite.Hub.Model.{
  assign_task, find_meta, Session, WorkerHub, find_session, update_session, delete_id, insert_id,
}
use crawler_lite.Prelude.Base.{
  ℕ, ◌≡◌, refl, ap, ◌∙◌, ◌==◌, ◌⊎◌, inl, inr, Bool, true, false, some, List, [], ◌∷◌, ◌++◌, arith,
  Bool-cases, Option-cases, if◌then◌else◌,
}
use crawler_lite.Hub.Ops.{push, has_slot, has_room, reserve, undo, assigned, tried, assign}
use mathlib.Core.Path.{subst}
use mathlib.Core.HLevel.{⊥_prop}
use mathlib.Core.List.{Mem, mem-cons, mem-cons_self, mem-cons_of_mem, not-mem-nil}
use mathlib.Core.Logic.Or
use crawler_lite.Prelude.Int.{ℤ, pos, ◌+ℤ◌, ◌-ℤ◌}
use crawler_lite.Task.Model.{AssignTask}

abbrev pub has_id : ℕ → List ℕ → Bool
has_id id [] = false
has_id id (x ∷ xs) = if x == id then true else has_id id xs

-- No session holds the task in its set of running tasks.
abbrev pub NotRunning : ℕ → WorkerHub → Type 0
NotRunning task h =
    (sid : ℕ) (s : Session) → find_session sid h.sessions ≡ some s → has_id task s.running ≡ false

-- The session that the map holds under `sid` has a free slot and room in its outbox.
pub record CanTake (h : WorkerHub) (sid : ℕ) (s : Session) : Type 0 where
  pub found : find_session sid h.sessions ≡ some s
  pub slot : has_slot s ≡ true
  pub room : has_room s ≡ true

delete_id-absent : (id : ℕ) (xs : List ℕ) → has_id id xs ≡ false → delete_id id xs ≡ xs
delete_id-absent id [] e = refl
delete_id-absent id (x ∷ xs) e = ground (arith, delete_id-absent id xs)

delete_id-insert :
    (id : ℕ) (xs : List ℕ) → has_id id xs ≡ false → delete_id id (insert_id id xs) ≡ xs
delete_id-insert id xs e = ground (arith, delete_id-absent id xs)

back : (z : ℤ) → z -ℤ pos 1 +ℤ pos 1 ≡ z
unfolding ◌+ℤ◌ ◌-ℤ◌
back z = ground arith

-- Undoing a reservation restores the session.
undo-reserve :
    (task : ℕ) (s : Session) → has_id task s.running ≡ false → undo task (reserve task s) ≡ s
undo-reserve task s e = ground (arith, delete_id-insert task s.running, back s.free_slots)

update_session_same :
    (sid : ℕ) (f : Session → Session) (ss : List Session)
    → ((s : Session) → find_session sid ss ≡ some s → f s ≡ s)
    → update_session sid f ss ≡ ss
update_session_same sid f [] k = refl
update_session_same sid f (u ∷ ss) k = elim (Bool-cases (u.session_id == sid)) [
  | inl e ↦ rw e (ap (λ x. x ∷ ss) (k u (rw e)))
  | inr e ↦ rw e (ap (◌∷◌ u) (update_session_same sid f ss (λ x q. k x (rw e q))))
]

tried_same :
    (a : AssignTask) (sid : ℕ) (s : Session) (h : WorkerHub)
    → NotRunning a.task_id h
    → find_session sid h.sessions ≡ some s
    → tried a s h ≡ h
tried_same a sid s h n e =
    ap (λ ss. record h { sessions = ss })
      (update_session_same s.session_id (λ s. undo a.task_id (reserve a.task_id s)) h.sessions
        (λ u q. undo-reserve a.task_id u (n s.session_id u q)))

-- The session with the task: one slot less, the task among the running ones, and the message last in its
-- outbox.
abbrev pub with_task : AssignTask → Session → Session
with_task a s = record {
  worker_id = s.worker_id;
  session_id = s.session_id;
  capabilities = s.capabilities;
  concurrency = s.concurrency;
  free_slots = s.free_slots -ℤ pos 1;
  running_tasks = s.running_tasks;
  outbox = s.outbox ++ (assign_task a ∷ []);
  running = insert_id a.task_id s.running;
}

-- The task is placed: a visited session that can take it has it, the map knows where it is, and every other
-- session and entry is as before.
pub record Placed (order : List ℕ) (a : AssignTask) (h : WorkerHub) : Type 0 where
  pub sid : ℕ
  pub session : Session
  pub visited : Mem sid order
  pub takes : CanTake h sid session
  pub answer : (assign order a h).0 ≡ true
  pub taken : find_session sid (assign order a h).1.sessions ≡ some (with_task a session)
  pub others :
      (other : ℕ)
      → (other == sid) ≡ false
      → find_session other (assign order a h).1.sessions ≡ find_session other h.sessions
  pub recorded :
      find_meta a.task_id (assign order a h).1.tasks
      ≡ some (record { session_id = sid; spider_id = a.spider_id })
  pub other_tasks :
      (task : ℕ)
      → (task == a.task_id) ≡ false
      → find_meta task (assign order a h).1.tasks ≡ find_meta task h.tasks
  pub open_as_before : (assign order a h).1.gone ≡ h.gone
  pub written_as_before : (assign order a h).1.written ≡ h.written

pub record Refused (order : List ℕ) (a : AssignTask) (h : WorkerHub) : Type 0 where
  pub nobody : (sid : ℕ) (s : Session) → Mem sid order → ¬ CanTake h sid s
  pub result : assign order a h ≡ (false, h)

skip :
    (sid : ℕ) (order : List ℕ) (a : AssignTask) (h : WorkerHub)
    → ((s : Session) → ¬ CanTake h sid s)
    → assign (sid ∷ order) a h ≡ assign order a h
    → Placed order a h ⊎ Refused order a h
    → Placed (sid ∷ order) a h ⊎ Refused (sid ∷ order) a h
skip sid order a h n e (inl p) = inl (record {
  sid = p.sid;
  session = p.session;
  visited = mem-cons_of_mem sid p.visited;
  takes = p.takes;
  answer = ap (λ r. r.0) e ∙ p.answer;
  taken = ap (λ r. find_session p.sid r.1.sessions) e ∙ p.taken;
  others = λ other n. ap (λ r. find_session other r.1.sessions) e ∙ p.others other n;
  recorded = ap (λ r. find_meta a.task_id r.1.tasks) e ∙ p.recorded;
  other_tasks = λ task n. ap (λ r. find_meta task r.1.tasks) e ∙ p.other_tasks task n;
  open_as_before = ap (λ r. r.1.gone) e ∙ p.open_as_before;
  written_as_before = ap (λ r. r.1.written) e ∙ p.written_as_before;
})
skip sid order a h n e (inr r) = inr (record {
  nobody = λ i s m c.
      Or.elim ⊥_prop (mem-cons.0 m) (λ q. n s (subst (λ j. CanTake h j s) q c))
        (λ k. r.nobody i s k c);
  result = e ∙ r.result;
})

assign_here :
    (sid : ℕ) (order : List ℕ) (a : AssignTask) (s : Session) (h : WorkerHub)
    → CanTake h sid s
    → assign (sid ∷ order) a h ≡ (true, assigned a s h)
    → Placed (sid ∷ order) a h
assign_here sid order a s h c e =
    let f : Session → Session = λ s. push (assign_task a) (reserve a.task_id s) in
    let i : s.session_id ≡ sid = find_session-id sid h.sessions s c.found in
    let at : update_session s.session_id f h.sessions ≡ update_session sid f h.sessions =
      ap (λ n. update_session n f h.sessions) i in
    record {
      sid = sid;
      session = s;
      visited = mem-cons_self;
      takes = c;
      answer = ap (λ r. r.0) e;
      taken =
          ap (λ r. find_session sid r.1.sessions) e
          ∙ ap (find_session sid) at
          ∙ find-update_same sid f s h.sessions refl c.found;
      others = λ other n.
          ap (λ r. find_session other r.1.sessions) e
          ∙ ap (find_session other) at
          ∙ find-update_other sid other f h.sessions (λ _. refl) n;
      recorded =
          ap (λ r. find_meta a.task_id r.1.tasks) e
          ∙ rw (same_id a.task_id)
              (ap (λ n. some (record { session_id = n; spider_id = a.spider_id })) i);
      other_tasks = λ task n.
          ap (λ r. find_meta task r.1.tasks) e
          ∙ rw (sym_id task a.task_id n) (find-delete_other a.task_id task h.tasks n);
      open_as_before = ap (λ r. r.1.gone) e;
      written_as_before = ap (λ r. r.1.written) e;
    }
  where
    same_id : (n : ℕ) → (n == n) ≡ true
    same_id n = ground arith

    sym_id : (m n : ℕ) → (m == n) ≡ false → (n == m) ≡ false
    sym_id m n e = ground arith

-- For a task that no session is running, whatever the order in which the map is walked, and where no other
-- step comes in between: either Assign answers yes, and a visited session that had a free slot and
-- room has one slot less, the task among its running ones and the message last in its outbox, the map
-- names that session and the task's spider, and every other session and entry is as before; or no visited
-- session can take the task, and the answer is no and the hub is as before.
pub assign_lem :
    (order : List ℕ) (a : AssignTask) (h : WorkerHub)
    → NotRunning a.task_id h
    → Placed order a h ⊎ Refused order a h
unfolding assign
assign_lem [] a h n = inr (record { nobody = λ i s m _. not-mem-nil m; result = refl })
assign_lem (sid ∷ order) a h n = elim (Option-cases (find_session sid h.sessions)) [
  | inl e ↦ skip sid order a h (λ s c. cc (c.found)) (rw (e, assign)) (assign_lem order a h n)
  | inr (s, e) ↦ elim (Bool-cases (has_slot s)) [
    | inr full ↦
        skip sid order a h (λ u c. ground (arith, c.found, c.slot)) (rw (e, assign, full))
          (assign_lem order a h n)
    | inl slot ↦ elim (Bool-cases (has_room s)) [
      | inr full ↦
          skip sid order a h (λ u c. ground (arith, c.found, c.room))
            (rw (e, assign, slot, full) (ap (assign order a) (tried_same a sid s h n e)))
            (assign_lem order a h n)
      | inl room ↦ inl (
          assign_here sid order a s h (record { found = e; slot = slot; room = room })
            (rw (e, assign, slot, room) refl))
    ]
  ]
]
