-- ===== src/Notify/Service.antt =====
-- internal/notify/notify.go, Service: the channels' validation, the cache and the fan-out.
use crawler_lite.Prelude.Base.{ℕ, ◌||◌, ◌&&◌, not, Bool, none, some, List, [], ◌∷◌, if◌then◌else◌}
use crawler_lite.Prelude.Int.{pos, ◌+ℤ◌, ltb_ℤ}
use crawler_lite.Prelude.Text.{Str, codes, contains, is_empty, trim_space, Unicode}
use crawler_lite.Result.{hub_error, invalid_input, invalid_url, Result, ok, err}
use crawler_lite.Task.Model.{Event}
use crawler_lite.Notify.Model.{
  Channel, CreateInput, UpdateInput, Db, Delivery, World, Env, default_events, are_valid, token,
}
use crawler_lite.Notify.Format.{format}
use crawler_lite.Notify.Repo.{or_default, insert, get, list_enabled, update, delete}

abbrev pub is_blank : Unicode → Str → Bool
is_blank u s = is_empty (trim_space u s)

-- invalidate
abbrev pub invalidate : World → World
invalidate w = record w { cache_until = pos 0; cached = [] }

abbrev pub on_db : {A : Type 0} → World → Result A × Db → Result A × World
on_db w (r, db) = (r, record w { db = db })

abbrev pub with_events : CreateInput → CreateInput
with_events i = record i { events = some (or_default default_events i.events) }

-- Create
unfoldable pub create : Env → CreateInput → World → Result Channel × World
unfolding insert
create env i w =
    if is_blank env.unicode i.name || is_blank env.unicode i.url
    then (err invalid_input, w)
    else if is_empty i.kind
    then (err invalid_input, w)
    else if not (env.valid_url i.url)
    then (err invalid_url, w)
    else if not (are_valid (or_default default_events i.events))
    then (err invalid_input, w)
    else on_db (invalidate w) (insert w.now (with_events i) w.db)

-- Update
unfoldable pub change : Env → ℕ → UpdateInput → World → Result Channel × World
unfolding update
change env id i w =
    if is_blank env.unicode i.name
    then (err invalid_input, w)
    else if not (is_empty i.url) && not (env.valid_url i.url)
    then (err invalid_url, w)
    else if not (are_valid (or_default [] i.events))
    then (err invalid_input, w)
    else on_db (invalidate w) (update w.now id i w.db)

-- Delete
unfoldable pub remove : ℕ → World → Result (Unit {0}) × World
unfolding delete
remove id w = on_db (invalidate w) (delete id w.db)

-- What the sender answers, with the delivery noted.
abbrev pub deliver : Env → Delivery → World → Result (Unit {0}) × World
deliver env d w = (
  elim (env.send_fails d) [ none ↦ ok tt | some message ↦ err (hub_error message) ],
  record w { sent = d ∷ w.sent },
)

abbrev pub test_delivery : Channel → Delivery
test_delivery c = record {
  channel = c.id;
  url = c.url;
  title = codes "crawler-lite";
  body = codes "Test notification — your channel is configured correctly.";
}

-- Test
unfoldable pub send_test : Env → ℕ → World → Result (Unit {0}) × World
unfolding get
send_test env id w =
    let (r, db) = get id w.db in
    elim r [
      | err e ↦ (err e, record w { db = db })
      | ok c ↦ deliver env (test_delivery c) (record w { db = db })
    ]

-- The five seconds for which the enabled channels are kept.
abbrev pub cache_time : ℕ
cache_time = 5_000_000_000

-- The list is kept where the statement succeeds.
abbrev pub refreshed : World → Result (List Channel) × Db → Result (List Channel) × World
refreshed w (err e, db) = (err e, record w { db = db })
refreshed w (ok cs, db) =
    (ok cs, record w { db = db; cached = cs; cache_until = w.now +ℤ pos cache_time })

-- enabled
unfoldable pub enabled : World → Result (List Channel) × World
unfolding list_enabled
enabled w = if ltb_ℤ w.now w.cache_until then (ok w.cached, w) else refreshed w (list_enabled w.db)

-- The loop of Notify: it starts one delivery to each channel that subscribes to the event. Each runs in a
-- goroutine of its own; `sent` has them as they start, and says nothing of when they are made. A failed
-- delivery is only logged.
unfoldable pub fan_out : Str → Str × Str → List Channel → World → World
fan_out kind message [] w = w
fan_out kind (title, body) (c ∷ cs) w =
    let rest = fan_out kind (title, body) cs in
    if contains c.events kind
    then rest (record w {
      sent = record { channel = c.id; url = c.url; title = title; body = body } ∷ w.sent;
    })
    else rest w

-- What Notify does with the channels, where they are there.
abbrev pub notify_all : Env → Event → Result (List Channel) × World → World
notify_all env ev (err e, w) = w
notify_all env ev (ok cs, w) = fan_out (token ev.kind) (format env ev) cs w

-- Notify
unfoldable pub notify : Env → Event → World → World
unfolding enabled fan_out format
notify env ev w = notify_all env ev (enabled w)
