-- ===== src/Task/Dispatch.antt =====
-- internal/task/service.go: Cancel, and one round of the dispatcher, over the interface to the hub.
use crawler_lite.Prelude.Base.{ℕ, true, false, List, [], ◌∷◌}
use crawler_lite.Prelude.Text.{codes}
use crawler_lite.Result.{Error, Result, ok, err, error_text}
use crawler_lite.Task.Model.{failed, cancelled, Task, HubOps, World, Deps}
use crawler_lite.Task.Repo.{get_spider, list_queued, set_status}
use crawler_lite.Task.Assign.{build_assign_from}
use crawler_lite.Task.Service.{maybe_schedule_retry}

module _ {H : Type 0} (ops : HubOps H) where
  unfoldable pub cancel : ℕ → World H → Result (Unit {0}) × World H
  cancel id w =
      let (r, db) = set_status w.now id cancelled (codes "cancelled by user") [] [] w.db in
      let (q, h) = ops.cancel_running id w.hub in
      elim r [ err e ↦ (err e, record w { db = db }) | ok _ ↦ (q, record w { db = db; hub = h }) ]

  -- A task whose message cannot be built: it fails, and may be retried.
  unfoldable pub build_failed : Deps → Task → Error → World H → World H
  build_failed d t e w =
      let (_, db) = set_status w.now t.id failed (error_text e) (codes "build_assign") [] w.db in
      (maybe_schedule_retry d t.id (codes "build_assign") (record w { db = db })).1

  -- The loop of dispatchOnce over the queued tasks.
  unfoldable pub dispatch_list : Deps → List Task → World H → World H
  unfolding build_failed
  dispatch_list d [] w = w
  dispatch_list d (t ∷ ts) w =
      let (s, db) = get_spider t.spider_id w.db in
      let w' = record w { db = db } in
      elim (build_assign_from d t s) [
        | err e ↦ dispatch_list d ts (build_failed d t e w')
        | ok a ↦
            let (r, h) = ops.assign a w.hub in
            let w'' = record w' { hub = h } in
            elim r [
              | err e ↦ dispatch_list d ts w''
              | ok assigned ↦ elim assigned [ true ↦ dispatch_list d ts w'' | false ↦ w'' ]
            ]
      ]

  unfoldable pub dispatch_once : Deps → World H → World H
  unfolding dispatch_list
  dispatch_once d w =
      let (r, db) = list_queued w.now w.db in
      let w' = record w { db = db } in elim r [ err e ↦ w' | ok ts ↦ dispatch_list d ts w' ]
