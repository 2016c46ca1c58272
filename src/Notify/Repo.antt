-- ===== src/Notify/Repo.antt =====
-- internal/repository/notifications.go: statements on the table of channels.
use crawler_lite.Prelude.Base.{
  ℕ, suc, ◌==◌, not, Option, none, some, List, [], ◌∷◌, ◌++◌, keep, if◌then◌else◌,
}
use crawler_lite.Prelude.Text.{Str}
use crawler_lite.Result.{db_error, not_found, Result, ok, err}
use crawler_lite.Spider.Model.{Time}
use crawler_lite.Notify.Model.{Channel, CreateInput, UpdateInput, Db, default_events}

unfoldable pub statement : {A : Type 0} → (Db → Result A × Db) → Db → Result A × Db
statement body db = elim db.faults [
  | [] ↦ body (record db { faults = [] })
  | none ∷ rest ↦ body (record db { faults = rest })
  | some message ∷ rest ↦ (err (db_error message), record db { faults = rest })
]

abbrev pub find_channel : ℕ → List Channel → Option Channel
find_channel id [] = none
find_channel id (c ∷ cs) = if c.id == id then some c else find_channel id cs

abbrev pub or_default : List Str → Option (List Str) → List Str
or_default es none = es
or_default es (some fs) = fs

abbrev pub new_channel : ℕ → Time → CreateInput → Channel
new_channel id now i = record {
  id = id;
  name = i.name;
  kind = i.kind;
  url = i.url;
  events = or_default default_events i.events;
  enabled = i.enabled;
  created_by = i.created_by;
  created_at = now;
  updated_at = now;
}

abbrev pub insert_row : Time → CreateInput → Db → Result Channel × Db
insert_row now i db =
    let row = new_channel db.next_id now i in
    (ok row, record db { channels = db.channels ++ (row ∷ []); next_id = suc db.next_id })

unfoldable pub insert : Time → CreateInput → Db → Result Channel × Db
unfolding statement
insert now i = statement (insert_row now i)

abbrev pub found : Option Channel → Result Channel
found none = err not_found
found (some c) = ok c

unfoldable pub get : ℕ → Db → Result Channel × Db
unfolding statement
get id = statement (λ db. (found (find_channel id db.channels), db))

unfoldable pub list : Db → Result (List Channel) × Db
unfolding statement
list = statement (λ db. (ok db.channels, db))

unfoldable pub list_enabled : Db → Result (List Channel) × Db
unfolding statement
list_enabled = statement (λ db. (ok (keep (λ c. c.enabled) db.channels), db))

abbrev pub changed : Time → UpdateInput → Channel → Channel
changed now i c = record c {
  name = i.name;
  kind = i.kind;
  url = i.url;
  events = or_default [] i.events;
  enabled = i.enabled;
  updated_at = now;
}

abbrev pub update_row : ℕ → (Channel → Channel) → List Channel → List Channel
update_row id f [] = []
update_row id f (c ∷ cs) = (if c.id == id then f c else c) ∷ update_row id f cs

abbrev pub change_row : Time → ℕ → UpdateInput → Db → Result Channel × Db
change_row now id i db =
    let rows = update_row id (changed now i) db.channels in
    (found (find_channel id rows), record db { channels = rows })

unfoldable pub update : Time → ℕ → UpdateInput → Db → Result Channel × Db
unfolding statement
update now id i = statement (change_row now id i)

abbrev pub delete_row : ℕ → Db → Result (Unit {0}) × Db
delete_row id db = (ok tt, record db { channels = keep (λ c. not (c.id == id)) db.channels })

unfoldable pub delete : ℕ → Db → Result (Unit {0}) × Db
unfolding statement
delete id = statement (delete_row id)
