-- ===== src/Task/Dispatching.antt =====
-- The dispatcher and Cancel as moves of the tables.
use crawler_lite.Prelude.Base.{ℕ, inl, inr, List, [], ◌∷◌, Bool-cases}
use crawler_lite.Prelude.Text.{codes}
use crawler_lite.Result.{Error, error_text}
use crawler_lite.Task.Model.{failed, cancelled, Task, HubOps, World, Deps}
use crawler_lite.Task.Repo.{get_spider, list_queued, set_status}
use crawler_lite.Task.Statements.{get_spider-SameTables, list_queued-SameTables}
use crawler_lite.Task.Retrying.{Result-cases}
use crawler_lite.Task.Assign.{build_assign_from}
use crawler_lite.Task.Dispatch.{build_failed, dispatch_list, dispatch_once, cancel}
use crawler_lite.Task.Moves.{
  Moves, done, Moves-trans, one, keep, set_status-Moves, maybe_schedule_retry-Moves,
}

module _ {H : Type 0} (ops : HubOps H) where
  build_failed-Moves :
      (d : Deps) (t : Task) (e : Error) (w : World H) → Moves w.db (build_failed ops d t e w).db
  unfolding build_failed
  build_failed-Moves d t e w =
      Moves-trans (set_status-Moves w.now t.id failed (error_text e) (codes "build_assign") [] w.db)
        (maybe_schedule_retry-Moves d t.id (codes "build_assign") (record w {
          db = (set_status w.now t.id failed (error_text e) (codes "build_assign") [] w.db).1;
        }))

  dispatch_list-Moves :
      (d : Deps) (ts : List Task) (w : World H) → Moves w.db (dispatch_list ops d ts w).db
  unfolding dispatch_list
  dispatch_list-Moves d [] w = done
  dispatch_list-Moves d (t ∷ ts) w =
      let w' = record w { db = (get_spider t.spider_id w.db).1 } in
      let looked = one (keep (get_spider-SameTables t.spider_id w.db)) in
      elim (Result-cases (build_assign_from d t (get_spider t.spider_id w.db).0)) [
        | inl (e, q) ↦
            rw (q, dispatch_list)
              (Moves-trans looked (
                Moves-trans (build_failed-Moves d t e w')
                  (dispatch_list-Moves d ts (build_failed ops d t e w'))))
        | inr (a, q) ↦
            let w'' = record w' { hub = (ops.assign a w.hub).1 } in
            elim (Result-cases (ops.assign a w.hub).0) [
              | inl (e, r) ↦
                  rw (q, dispatch_list, r) (Moves-trans looked (dispatch_list-Moves d ts w''))
              | inr (assigned, r) ↦ elim (Bool-cases assigned) [
                | inl placed ↦
                    rw (q, dispatch_list, r, placed)
                      (Moves-trans looked (dispatch_list-Moves d ts w''))
                | inr refused ↦ rw (q, dispatch_list, r, refused) looked
              ]
            ]
      ]

  pub dispatch_once-Moves : (d : Deps) (w : World H) → Moves w.db (dispatch_once ops d w).db
  unfolding dispatch_once
  dispatch_once-Moves d w =
      let w' = record w { db = (list_queued w.now w.db).1 } in
      let listed = one (keep (list_queued-SameTables w.now w.db)) in
      elim (Result-cases (list_queued w.now w.db).0) [
        | inl (e, q) ↦ rw (q, dispatch_once) listed
        | inr (ts, q) ↦ rw (q, dispatch_once) (Moves-trans listed (dispatch_list-Moves d ts w'))
      ]

  pub cancel-Moves : (id : ℕ) (w : World H) → Moves w.db (cancel ops id w).1.db
  unfolding cancel
  cancel-Moves id w =
      let s = set_status-Moves w.now id cancelled (codes "cancelled by user") [] [] w.db in
      elim (Result-cases (set_status w.now id cancelled (codes "cancelled by user") [] [] w.db).0) [
        | inl (e, q) ↦ rw (q, cancel) s
        | inr (_, q) ↦ rw (q, cancel) s
      ]
