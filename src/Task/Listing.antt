-- ===== src/Task/Listing.antt =====
-- GET /tasks: List of internal/repository/tasks.go and of internal/task/service.go, and its handler.
use crawler_lite.Prelude.Base.{ℕ, ◌||◌, List, [], ◌∷◌, take, drop, if◌then◌else◌}
use crawler_lite.Prelude.Int.{ℤ, pos, leb_ℤ, ltb_ℤ}
use crawler_lite.Prelude.Text.{codes}
use crawler_lite.Result.{Result, ok}
use crawler_lite.Api.Reply.{Reply}
use crawler_lite.Task.Model.{Task, Db, World}
use crawler_lite.Task.Repo.{statement}
use crawler_lite.Task.Outputs.{to_nat, listed}

-- ORDER BY queued_at DESC: insertion into a sorted list, before the rows of the same time.
abbrev pub insert_newest : Task → List Task → List Task
insert_newest t [] = t ∷ []
insert_newest t (s ∷ ss) =
    if leb_ℤ s.queued_at t.queued_at then t ∷ s ∷ ss else s ∷ insert_newest t ss

abbrev pub newest_first : List Task → List Task
newest_first [] = []
newest_first (t ∷ ts) = insert_newest t (newest_first ts)

-- TaskRepo.List
unfoldable pub list_tasks : ℕ → ℕ → Db → Result (List Task) × Db
unfolding statement
list_tasks limit offset =
    statement (λ db. (ok (take limit (drop offset (newest_first db.tasks))), db))

abbrev pub list_limit : ℤ → ℤ
list_limit n = if leb_ℤ n (pos 0) || ltb_ℤ (pos 200) n then pos 50 else n

abbrev pub list_offset : ℤ → ℤ
list_offset n = if ltb_ℤ n (pos 0) then pos 0 else n

-- Service.List
unfoldable pub list : ℤ → ℤ → Db → Result (List Task) × Db
unfolding list_tasks
list limit offset = list_tasks (to_nat (list_limit limit)) (to_nat (list_offset offset))

-- GET /tasks, on what strconv.Atoi makes of the query.
unfoldable pub on_list : {H : Type 0} → ℤ → ℤ → World H → Reply (List Task) × World H
unfolding list
on_list limit offset w =
    let (r, db) = list limit offset w.db in
    (listed (codes "failed to list") r, record w { db = db })
