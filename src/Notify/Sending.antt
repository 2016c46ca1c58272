-- ===== src/Notify/Sending.antt =====
-- internal/notify/notify.go, Notify and enabled: the fan-out, and the cache against the table.
use crawler_lite.Prelude.Base.{
  ℕ, ◌≡◌, refl, ap, ◌⊎◌, inl, inr, Bool, true, false, Option, List, [], ◌∷◌, keep, Bool-cases,
  arith, not, ◌&&◌, ◌||◌, if◌then◌else◌,
}
use crawler_lite.Prelude.Int.{pos, ◌+ℤ◌, ◌≤ℤ◌, ltb_ℤ}
use crawler_lite.Prelude.Text.{Str, contains, is_empty}
use crawler_lite.Result.{Error, db_error, Result, ok, err}
use crawler_lite.Spider.Model.{Time}
use crawler_lite.Task.Model.{Event}
use crawler_lite.Task.Statements.{faults_cases}
use crawler_lite.Notify.Model.{
  Channel, CreateInput, UpdateInput, Db, Delivery, World, Env, token, are_valid, default_events,
}
use crawler_lite.Notify.Repo.{or_default, statement, insert, update, list_enabled}
use crawler_lite.Notify.Format.{format}
use crawler_lite.Notify.Service.{
  is_blank, invalidate, on_db, with_events, create, change, refreshed, enabled, fan_out, notify_all,
  notify, cache_time,
}

abbrev pub enabled_rows : Db → List Channel
enabled_rows db = keep (λ c. c.enabled) db.channels

-- The memo has expired, or it is the list of the enabled rows.
pub data Fresh (w : World) : Type 0 where
  expired : w.cache_until ≤ℤ w.now → Fresh w
  current : w.cached ≡ enabled_rows w.db → Fresh w

-- The deliveries for the channels, the one that starts last in front, on those before.
abbrev pub deliveries : Str → Str × Str → List Channel → List Delivery → List Delivery
deliveries kind message [] ds = ds
deliveries kind (title, body) (c ∷ cs) ds =
    let rest = deliveries kind (title, body) cs in
    if contains c.events kind
    then rest (record { channel = c.id; url = c.url; title = title; body = body } ∷ ds)
    else rest ds

pub fan_out_rest :
    (kind : Str) (m : Str × Str) (cs : List Channel) (w : World)
    → fan_out kind m cs w ≡ record w { sent = deliveries kind m cs w.sent }
unfolding fan_out
fan_out_rest kind m [] w = refl
fan_out_rest kind (title, body) (c ∷ cs) w = elim (Bool-cases (contains c.events kind)) [
  | inl e ↦ rw (fan_out, e) (fan_out_rest kind (title, body) cs _)
  | inr e ↦ rw (fan_out, e) (fan_out_rest kind (title, body) cs w)
]

-- A statement fails before it touches the table, or runs on it.
pub statement_cases :
    {A : Type 0} (body : Db → Result A × Db) (db : Db)
    → ((e : Error) × (l : List (Option Str)) × (statement body db
          ≡ (err e, record db { faults = l })))
      ⊎ ((l : List (Option Str)) × (statement body db ≡ body (record db { faults = l })))
unfolding statement
statement_cases body db = elim (faults_cases db.faults) [
  | inl e ↦ inr ([], rw (e, statement))
  | inr (inl (rest, e)) ↦ inr (rest, rw (e, statement))
  | inr (inr (message, rest, e)) ↦ inl (db_error message, rest, rw (e, statement))
]

-- The world after a list that was read anew.
abbrev memo : World → List (Option Str) → World
memo w l = record w {
  db = record w.db { faults = l };
  cached = enabled_rows w.db;
  cache_until = w.now +ℤ pos cache_time;
}

enabled_cases :
    (w : World)
    → Fresh w
    → ((e : Error) × (l : List (Option Str)) × (enabled w
          ≡ (err e, record w { db = record w.db { faults = l } })))
      ⊎ ((w' : World) × (enabled w ≡ (ok (enabled_rows w.db), w'))
          × (w'.sent ≡ w.sent)
          × (w'.now ≡ w.now)
          × (enabled_rows w'.db ≡ enabled_rows w.db)
          × Fresh w')
unfolding enabled list_enabled
enabled_cases w f = elim (Bool-cases (ltb_ℤ w.now w.cache_until)) [
  | inl early ↦ elim f [
    | expired late ↦ ground arith
    | current same ↦
        inr (w, rw (early, enabled) (ap (λ cs. (ok cs, w)) same), refl, refl, refl, current same)
  ]
  | inr late ↦ elim (statement_cases (λ db. (ok (enabled_rows db), db)) w.db) [
    | inl (e, l, q) ↦ inl (e, l, rw (late, enabled) (ap (refreshed w) q))
    | inr (l, q) ↦
        inr (memo w l, rw (late, enabled) (ap (refreshed w) q), refl, refl, refl, current refl)
  ]
]

-- An outcome that keeps the memo fresh and the time.
pub record Keeps {A : Type 0} (now : Time) (r : A × World) : Type 0 where
  pub fresh : Fresh r.1
  pub same_time : r.1.now ≡ now

if-Keeps :
    {A : Type 0} (now : Time) (b : Bool) (x y : A × World)
    → Keeps now x
    → Keeps now y
    → Keeps now (if b then x else y)
if-Keeps now true x y h k = h
if-Keeps now false x y h k = k

refused-Keeps : {A : Type 0} (x : A) (w : World) → Fresh w → Keeps w.now (x, w)
refused-Keeps x w f = record { fresh = f; same_time = refl }

pub create-Keeps :
    (env : Env) (i : CreateInput) (w : World)
    → pos 0 ≤ℤ w.now
    → Fresh w
    → Keeps w.now (create env i w)
unfolding create
create-Keeps env i w start f =
    let dropped : Keeps w.now (on_db (invalidate w) (insert w.now (with_events i) w.db)) = record {
      fresh = expired start;
      same_time = refl;
    } in
    if-Keeps w.now (is_blank env.unicode i.name || is_blank env.unicode i.url) _ _
      (refused-Keeps _ w f)
      (if-Keeps w.now (is_empty i.kind) _ _ (refused-Keeps _ w f) (
        if-Keeps w.now (not (env.valid_url i.url)) _ _ (refused-Keeps _ w f) (
          if-Keeps w.now (not (are_valid (or_default default_events i.events))) _ _
            (refused-Keeps _ w f) dropped)))

pub change-Keeps :
    (env : Env) (id : ℕ) (u : UpdateInput) (w : World)
    → pos 0 ≤ℤ w.now
    → Fresh w
    → Keeps w.now (change env id u w)
unfolding change
change-Keeps env id u w start f =
    let dropped : Keeps w.now (on_db (invalidate w) (update w.now id u w.db)) = record {
      fresh = expired start;
      same_time = refl;
    } in
    if-Keeps w.now (is_blank env.unicode u.name) _ _ (refused-Keeps _ w f) (
      if-Keeps w.now (not (is_empty u.url) && not (env.valid_url u.url)) _ _ (refused-Keeps _ w f) (
        if-Keeps w.now (not (are_valid (or_default [] u.events))) _ _ (refused-Keeps _ w f)
          dropped))

pub reread :
    (w : World) (l : List (Option Str))
    → Fresh w
    → Fresh (record w { db = record w.db { faults = l } })
reread w l (expired h) = expired h
reread w l (current h) = current h

enabled-Fresh : (w : World) → Fresh w → Fresh (enabled w).1
enabled-Fresh w f = elim (enabled_cases w f) [
  | inl (e, l, q) ↦ rw q (reread w l f)
  | inr (w', q, sent, now, rows, fresh) ↦ rw q fresh
]

pub resent : (w : World) (ds : List Delivery) → Fresh w → Fresh (record w { sent = ds })
resent w ds (expired h) = expired h
resent w ds (current h) = current h

notify_all-Fresh :
    (env : Env) (ev : Event) (r : Result (List Channel) × World)
    → Fresh r.1
    → Fresh (notify_all env ev r)
notify_all-Fresh env ev (err e, w) h = h
notify_all-Fresh env ev (ok cs, w) h =
    rw (fan_out_rest (token ev.kind) (format env ev) cs w)
      (resent w (deliveries (token ev.kind) (format env ev) cs w.sent) h)

pub notify-Fresh : (env : Env) (ev : Event) (w : World) → Fresh w → Fresh (notify env ev w)
unfolding notify
notify-Fresh env ev w f = notify_all-Fresh env ev (enabled w) (enabled-Fresh w f)

pub later-Fresh : (w : World) (n : ℕ) → Fresh w → Fresh (record w { now = w.now +ℤ pos n })
unfolding ◌+ℤ◌
later-Fresh w n (expired late) = expired (ground (arith, late))
later-Fresh w n (current same) = current same
