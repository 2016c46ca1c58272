-- ===== src/Task/Offers.antt =====
-- dispatchOnce of internal/task/service.go where the database answers: what the hub is offered.
use crawler_lite.Task.Ordering.{All-ordered, ordered-Selects, IsDue, Selects}
use crawler_lite.Prelude.Base.{
  not, ◌≡◌, refl, sym, ap, ◌∙◌, inl, inr, Bool, true, false, List, [], ◌∷◌, keep, All,
}
use crawler_lite.Result.{Result, ok, err}
use crawler_lite.Spider.Model.{Spider}
use crawler_lite.Task.Model.{Task, AssignTask, HubOps, World, Deps}
use crawler_lite.Task.Repo.{
  find_spider, get_spider, row_or_not_found, is_eligible, order_by_time, list_queued,
}
use crawler_lite.Task.Assign.{build_assign_from}
use crawler_lite.Task.Dispatch.{dispatch_list, dispatch_once}
use crawler_lite.Task.Retrying.{Result-cases}

abbrev pub built : Deps → List Spider → Task → Result AssignTask
built d ss t = build_assign_from d t (row_or_not_found (find_spider t.spider_id ss))

-- The message of the task can be built.
abbrev pub IsReady : Deps → List Spider → Task → Type 0
IsReady d ss t = (a : AssignTask) × (built d ss t ≡ ok a)

abbrev add_message : Result AssignTask → List AssignTask → List AssignTask
add_message (ok a) rest = a ∷ rest
add_message (err e) rest = rest

abbrev pub messages : Deps → List Spider → List Task → List AssignTask
messages d ss [] = []
messages d ss (t ∷ ts) = add_message (built d ss t) (messages d ss ts)

messages-cons :
    (d : Deps) (ss : List Spider) (t : Task) (ts : List Task) (a : AssignTask)
    → built d ss t ≡ ok a
    → messages d ss (t ∷ ts) ≡ a ∷ messages d ss ts
messages-cons d ss t ts a q = ap (λ r. add_message r (messages d ss ts)) q

-- The rows that ListQueued answers.
abbrev due_tasks : {H : Type 0} → World H → List Task
due_tasks w = order_by_time (keep (is_eligible w.now) w.db.tasks)

-- The world in which every statement to come succeeds.
abbrev pub calm : {H : Type 0} → World H → World H
calm w = record w { db = record w.db { faults = [] } }

abbrev is_no : Result Bool → Bool
is_no (ok false) = true
is_no _ = false

module _ {H : Type 0} (ops : HubOps H) where
  -- The hub is offered one message after the other until it answers no; an error is passed over.
  abbrev pub offer_all : List AssignTask → H → H
  offer_all [] h = h
  offer_all (a ∷ rest) h =
      let later = offer_all rest (ops.assign a h).1 in
      elim (is_no (ops.assign a h).0) [ true ↦ (ops.assign a h).1 | false ↦ later ]

  offered-cons :
      (w : World H) (h : H) {ms rest : List AssignTask}
      → ms ≡ rest
      → offer_all rest w.hub ≡ h
      → record (calm w) { hub = offer_all ms w.hub } ≡ record (calm w) { hub = h }
  offered-cons w h e q = ap (λ h. record (calm w) { hub = h }) (ap (λ ms. offer_all ms w.hub) e ∙ q)

  dispatch_list_lem :
      (d : Deps) (ts : List Task) (w : World H)
      → All (IsReady d w.db.spiders) ts
      → dispatch_list ops d ts (calm w)
        ≡ record (calm w) { hub = offer_all (messages d w.db.spiders ts) w.hub }
  unfolding dispatch_list get_spider
  dispatch_list_lem d [] w r = refl
  dispatch_list_lem d (t ∷ ts) w ((a, q), r) =
      let later = dispatch_list_lem d ts (record w { hub = (ops.assign a w.hub).1 }) r in
      let in_front = messages-cons d w.db.spiders t ts a q in
      elim (Result-cases (ops.assign a w.hub).0) [
        | inl (e, n) ↦
            rw (dispatch_list, q, n) refl
            ∙ later
            ∙ sym (offered-cons w _ in_front (rw (n, offer_all) refl))
        | inr (true, n) ↦
            rw (dispatch_list, q, n) refl
            ∙ later
            ∙ sym (offered-cons w _ in_front (rw (n, offer_all) refl))
        | inr (false, n) ↦
            rw (dispatch_list, q, n) refl
            ∙ sym (offered-cons w (ops.assign a w.hub).1 in_front (rw (n, offer_all) refl))
      ]

  -- A round of the dispatcher: `due` are the due rows, the oldest first, and the hub is offered their
  -- messages.
  pub record Round (d : Deps) (w : World H) : Type 0 where
    pub due : List Task
    pub rest : List Task
    pub selected : Selects w.now w.db.tasks due rest
    pub offered :
        dispatch_once ops d (calm w)
        ≡ record (calm w) { hub = offer_all (messages d w.db.spiders due) w.hub }

  -- Where every statement succeeds and every due task's message can be built: the rows fall into the due
  -- ones (queued, with no time before which they may not start or one that is reached) and the others; a
  -- round of the dispatcher offers the hub the messages of the due ones, each row queued no later than
  -- the next, until the hub answers no, and changes nothing else.
  pub dispatch_once_lem :
      (d : Deps) (w : World H)
      → All (λ t. IsDue w.now t → IsReady d w.db.spiders t) w.db.tasks
      → Round d w
  unfolding dispatch_once list_queued
  dispatch_once_lem d w ready = record {
    due = due_tasks w;
    rest = keep (λ t. not (is_eligible w.now t)) w.db.tasks;
    selected = ordered-Selects w.now w.db.tasks;
    offered =
        dispatch_list_lem d (due_tasks w) w
          (All-ordered w.now (IsReady d w.db.spiders) w.db.tasks ready);
  }
