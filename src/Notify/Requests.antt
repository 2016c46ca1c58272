-- ===== src/Notify/Requests.antt =====
-- internal/api/notifications, internal/notify: any sequence of requests, notifications and waits.
use crawler_lite.Notify.Service.{
  test_delivery, create, change, remove, notify, notify_all, enabled, refreshed, send_test,
}
use crawler_lite.Notify.Model.{Delivery, token, Channel, Db, World, Env}
use crawler_lite.Prelude.Base.{
  ℕ, ◌≡◌, refl, ap, inl, inr, Bool-cases, Option, none, some, List, [], ◌∷◌, arith,
}
use crawler_lite.Prelude.Int.{ℤ, pos, ◌≤ℤ◌, ◌+ℤ◌, ltb_ℤ}
use crawler_lite.Prelude.Text.{Str}
use crawler_lite.Result.{Result, ok, err}
use crawler_lite.Api.Reply.{Reply, path_int64}
use crawler_lite.Task.Model.{Event}
use crawler_lite.Task.Retrying.{Result-cases}
use crawler_lite.Notify.Repo.{statement, list, get, found, find_channel, list_enabled}
use crawler_lite.Notify.Format.{format}
use crawler_lite.Notify.Handlers.{
  ChannelReq, create_input, update_input, answered, written, removed, tested, update_found, with_id,
  on_list, on_get, on_create, on_update, on_delete, on_test,
}
use crawler_lite.Notify.Sending.{
  Fresh, statement_cases, reread, resent, fan_out_rest, Keeps, create-Keeps, change-Keeps,
  notify-Fresh, later-Fresh, enabled_rows, expired,
}
use crawler_lite.Notify.Validity.{
  AreChannels, create-AreChannels, change-AreChannels, remove-AreChannels,
}

-- A request with its path parameter and its body, an event of the task service, or nanoseconds that pass.
pub data Request : Type 0 where
  lists : Request
  gets deletes tests : Option ℤ → Request
  creates : Option ChannelReq → Request
  updates : Option ℤ → Option ChannelReq → Request
  notifies : Event → Request
  waits : ℕ → Request

unfoldable pub step : Env → Request → World → World
unfolding on_list on_get on_create on_update on_delete on_test notify ◌+ℤ◌
step env lists w = (on_list w).1
step env (gets param) w = (on_get param w).1
step env (deletes param) w = (on_delete param w).1
step env (tests param) w = (on_test env param w).1
step env (creates req) w = (on_create env req w).1
step env (updates param req) w = (on_update env param req w).1
step env (notifies ev) w = notify env ev w
step env (waits n) w = record w { now = w.now +ℤ pos n }

unfoldable pub run : Env → List Request → World → World
unfolding step
run env [] w = w
run env (q ∷ rest) w = run env rest (step env q w)

-- The cache is fresh and the channels are valid, at a time after the zero time.
pub record Sound (env : Env) (w : World) : Type 0 where
  pub begun : pos 0 ≤ℤ w.now
  pub fresh : Fresh w
  pub channels : AreChannels env w.db

-- A statement that only reads.
reads :
    {A : Type 0} (r : Db → Result A) (db : Db)
    → (l : List (Option Str)) × ((statement (λ db. (r db, db)) db).1 ≡ record db { faults = l })
reads r db = elim (statement_cases (λ db. (r db, db)) db) [
  | inl (e, l, q) ↦ (l, ap (λ x. x.1) q)
  | inr (l, q) ↦ (l, ap (λ x. x.1) q)
]

read-Sound :
    {A : Type 0} (env : Env) (r : Db → Result A) (w : World)
    → Sound env w
    → Sound env (record w { db = (statement (λ db. (r db, db)) w.db).1 })
read-Sound env r w s =
    let (l, q) = reads r w.db in
    rw q (record { begun = s.begun; fresh = reread w l s.fresh; channels = s.channels })

answered-Sound :
    {A : Type 0} (env : Env) (refusal : Reply A) (r : Result A × Db) (w : World)
    → Sound env (record w { db = r.1 })
    → Sound env (answered refusal r w).1
answered-Sound env refusal (err e, db) w s = s
answered-Sound env refusal (ok a, db) w s = s

written_lem :
    {A : Type 0} (required other : Str) (status : ℕ) (r : Result A × World)
    → (written required other status r).1 ≡ r.1
written_lem required other status (err e, w) = refl
written_lem required other status (ok a, w) = refl

removed_lem : (r : Result (Unit {0}) × World) → (removed r).1 ≡ r.1
removed_lem (err e, w) = refl
removed_lem (ok a, w) = refl

tested_lem : (r : Result (Unit {0}) × World) → (tested r).1 ≡ r.1
tested_lem (err e, w) = refl
tested_lem (ok a, w) = refl

-- A test only reads the table and adds to what was sent.
test_rest :
    (env : Env) (id : ℕ) (w : World)
    → (ds : List Delivery) × ((send_test env id w).1 ≡ record w { db = (get id w.db).1; sent = ds })
unfolding send_test
test_rest env id w = elim (Result-cases (get id w.db).0) [
  | inl (e, q) ↦ (w.sent, rw (q, send_test) refl)
  | inr (c, q) ↦ (test_delivery c ∷ w.sent, rw (q, send_test) refl)
]

refreshed_rest :
    (w : World) (r : Result (List Channel) × Db)
    → r.1.channels ≡ w.db.channels
    → ((refreshed w r).1.now ≡ w.now) × ((refreshed w r).1.db.channels ≡ w.db.channels)
refreshed_rest w (err e, db) h = (refl, h)
refreshed_rest w (ok cs, db) h = (refl, h)

-- The list of enabled channels: the table's rows and the time are as before.
enabled_rest :
    (w : World) → ((enabled w).1.now ≡ w.now) × ((enabled w).1.db.channels ≡ w.db.channels)
unfolding enabled list_enabled
enabled_rest w = elim (Bool-cases (ltb_ℤ w.now w.cache_until)) [
  | inl early ↦ rw (early, enabled) (refl, refl)
  | inr late ↦
      rw (late, enabled)
        (refreshed_rest w (list_enabled w.db)
          (ap (λ db. db.channels) ((reads (λ db. ok (enabled_rows db)) w.db).1)))
]

notify_rest :
    (env : Env) (ev : Event) (r : Result (List Channel) × World)
    → ((notify_all env ev r).now ≡ r.1.now) × ((notify_all env ev r).db ≡ r.1.db)
notify_rest env ev (err e, w) = (refl, refl)
notify_rest env ev (ok cs, w) =
    let q = fan_out_rest (token ev.kind) (format env ev) cs w in
    (ap (λ u. u.now) q, ap (λ u. u.db) q)

with_id-Sound :
    {A : Type 0} (env : Env) (o : Option ℕ) (next : ℕ → Reply A × World) (w : World)
    → Sound env w
    → ((id : ℕ) → Sound env (next id).1)
    → Sound env (with_id o next w).1
with_id-Sound env none next w s h = s
with_id-Sound env (some id) next w s h = h id

notify-Sound : (env : Env) (ev : Event) (w : World) → Sound env w → Sound env (notify env ev w)
unfolding notify
notify-Sound env ev w s =
    let (n, c) = enabled_rest w in
    let (n', c') = notify_rest env ev (enabled w) in
    record {
      begun = rw n' (rw n s.begun);
      fresh = notify-Fresh env ev w s.fresh;
      channels = rw c' (rw c s.channels);
    }

-- A write, whose outcome keeps the memo fresh and the time.
write-Sound :
    {A : Type 0} (env : Env) (required other : Str) (status : ℕ) (r : Result A × World) (w : World)
    → Sound env w
    → Keeps w.now r
    → AreChannels env r.1.db
    → Sound env (written required other status r).1
write-Sound env required other status r w s k c =
    rw (written_lem required other status r)
      (record { begun = rw k.same_time s.begun; fresh = k.fresh; channels = c })

update-Sound :
    (env : Env) (id : ℕ) (req : Option ChannelReq) (w : World)
    → Sound env w
    → Sound env (update_found env id req w).1
update-Sound env id none w s = s
update-Sound env id (some q) w s =
    write-Sound env _ _ 200 (change env id (update_input q) w) w s
      (change-Keeps env id (update_input q) w s.begun s.fresh)
      (change-AreChannels env id (update_input q) w s.channels)

step-Sound : (env : Env) (q : Request) (w : World) → Sound env w → Sound env (step env q w)
unfolding step on_list on_get on_create on_update on_delete on_test list get remove ◌+ℤ◌
step-Sound env lists w s =
    answered-Sound env _ (list w.db) w (read-Sound env (λ db. ok db.channels) w s)
step-Sound env (gets param) w s = with_id-Sound env (path_int64 param) _ w s (λ id.
    answered-Sound env _ (get id w.db) w
      (read-Sound env (λ db. found (find_channel id db.channels)) w s))
step-Sound env (creates none) w s = s
step-Sound env (creates (some q)) w s =
    write-Sound env _ _ 201 (create env (create_input q) w) w s
      (create-Keeps env (create_input q) w s.begun s.fresh)
      (create-AreChannels env (create_input q) w s.channels)
step-Sound env (updates param req) w s =
    with_id-Sound env (path_int64 param) _ w s (λ id. update-Sound env id req w s)
step-Sound env (deletes param) w s = with_id-Sound env (path_int64 param) _ w s (λ id.
    rw (removed_lem (remove id w)) (record {
      begun = s.begun;
      fresh = expired s.begun;
      channels = remove-AreChannels env id w s.channels;
    }))
step-Sound env (tests param) w s = with_id-Sound env (path_int64 param) _ w s (λ id.
    let (ds, q) = test_rest env id w in
    let read = read-Sound env (λ db. found (find_channel id db.channels)) w s in
    rw (tested_lem (send_test env id w))
      (rw q (record { begun = s.begun; fresh = resent _ ds read.fresh; channels = read.channels })))
step-Sound env (notifies ev) w s = notify-Sound env ev w s
step-Sound env (waits n) w s = record {
  begun = ground (arith, s.begun);
  fresh = later-Fresh w n s.fresh;
  channels = s.channels;
}

-- Over every sequence of requests to the notification endpoints, notifications and waits, one after the
-- other, whatever the input and whichever statements and deliveries fail: the memo of enabled channels has
-- expired or is the list of the enabled rows, and every stored channel has a name, a URL that parses or
-- is empty, and known events only. Of the memo this holds only since no notification comes between a
-- write's drop of the memo and its statement.
pub run-Sound :
    (env : Env) (requests : List Request) (w : World) → Sound env w → Sound env (run env requests w)
unfolding run
run-Sound env [] w s = s
run-Sound env (q ∷ rest) w s = run-Sound env rest (step env q w) (step-Sound env q w s)
