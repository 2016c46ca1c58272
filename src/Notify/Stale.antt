-- ===== src/Notify/Stale.antt =====
-- internal/notify/notify.go, Delete: a Notify between the cache's drop and the statement.
use crawler_lite.Notify.Service.{cache_time, invalidate, enabled, notify}
use crawler_lite.Notify.Format.{format}
use crawler_lite.Notify.Model.{token, Env, Channel, World}
use crawler_lite.Prelude.Base.{
  false, ◌==◌, not, true, arith, keep, ◌<◌, List, ℕ, Bool, ◌≡◌, refl, [], ◌∷◌,
}
use crawler_lite.Result.{ok}
use crawler_lite.Prelude.Int.{◌≤ℤ◌, pos, ltb_ℤ, ℤ, ◌+ℤ◌}
use crawler_lite.Task.Model.{Event}
use crawler_lite.Notify.Repo.{statement, delete, list_enabled}
use crawler_lite.Notify.Sending.{enabled_rows, fan_out_rest}

-- The world in which every statement to come succeeds.
abbrev pub calm : World → World
calm w = record w { db = record w.db { faults = [] } }

keep_comm : (p q : Channel → Bool) (cs : List Channel) → keep p (keep q cs) ≡ keep q (keep p cs)
keep_comm p q [] = refl
keep_comm p q (c ∷ cs) = ground (arith, keep_comm p q cs)

early : (z : ℤ) (n : ℕ) → 0 < n → ltb_ℤ z (z +ℤ pos n) ≡ true
unfolding ◌+ℤ◌
early z n h = ground arith

-- Delete drops the cache before its statement. Where every statement succeeds, a Notify that comes in
-- between reads the channels again, and behind the statement the list of enabled channels that the
-- service answers still has the channel that is no longer in the table.
pub stale_lem :
    (env : Env) (ev : Event) (id : ℕ) (w : World)
    → pos 0 ≤ℤ w.now
    → let between = notify env ev (invalidate (calm w)) in
      let behind = record between { db = (delete id between.db).1 } in
      ((enabled behind).0 ≡ ok (enabled_rows w.db))
      × (enabled_rows behind.db ≡ keep (λ c. not (c.id == id)) (enabled_rows w.db))
unfolding notify enabled list_enabled delete statement
stale_lem env ev id w start =
    let late : ltb_ℤ w.now (pos 0) ≡ false = ground (arith, start) in
    rw (late, enabled)
      (rw (fan_out_rest (token ev.kind) (format env ev) (enabled_rows w.db) _) (
        rw (early w.now cache_time (ground arith)) refl,
        keep_comm (λ c. c.enabled) (λ c. not (c.id == id)) w.db.channels,
      ))
