-- ===== src/Notify/Validity.antt =====
-- internal/notify/notify.go, Create, Update and Delete: the stored channels.
use crawler_lite.Prelude.Base.{
  ℕ, ◌==◌, ◌≡◌, inl, inr, Bool, true, false, not, ◌&&◌, ◌||◌, Option, List, [], ◌∷◌, keep, All,
  All-append, Bool-cases, arith,
}
use crawler_lite.Prelude.Text.{Str, is_empty}
use crawler_lite.Result.{Result}
use crawler_lite.Spider.Model.{Time}
use crawler_lite.Notify.Model.{
  Channel, CreateInput, UpdateInput, Db, World, Env, are_valid, default_events,
}
use crawler_lite.Notify.Repo.{
  or_default, new_channel, changed, update_row, statement, insert_row, change_row, delete_row,
  insert, update, delete,
}
use crawler_lite.Notify.Service.{is_blank, create, change, remove, with_events}
use crawler_lite.Notify.Sending.{statement_cases}

-- A name that is not blank, a URL that is absent or that the sender can parse, and known events.
pub record IsChannel (env : Env) (c : Channel) : Type 0 where
  pub named : is_blank env.unicode c.name ≡ false
  pub addressed : (is_empty c.url || env.valid_url c.url) ≡ true
  pub known : are_valid c.events ≡ true

abbrev pub AreChannels : Env → Db → Type 0
AreChannels env db = All (IsChannel env) db.channels

statement-AreChannels :
    {A : Type 0} (env : Env) (body : Db → Result A × Db) (db : Db)
    → AreChannels env db
    → ((l : List (Option Str)) → AreChannels env (body (record db { faults = l })).1)
    → AreChannels env (statement body db).1
statement-AreChannels env body db h k = elim (statement_cases body db) [
  | inl (e, l, q) ↦ rw q h
  | inr (l, q) ↦ rw q (k l)
]

insert-AreChannels :
    (env : Env) (now : Time) (i : CreateInput) (db : Db)
    → ((id : ℕ) → IsChannel env (new_channel id now i))
    → AreChannels env db
    → AreChannels env (insert now i db).1
unfolding insert
insert-AreChannels env now i db v h =
    statement-AreChannels env (insert_row now i) db h
      (λ l. All-append (IsChannel env) db.channels _ h (v db.next_id, tt))

update_row-AreChannels :
    (env : Env) (id : ℕ) (f : Channel → Channel) (cs : List Channel)
    → ((c : Channel) → IsChannel env (f c))
    → All (IsChannel env) cs
    → All (IsChannel env) (update_row id f cs)
update_row-AreChannels env id f [] v h = tt
update_row-AreChannels env id f (c ∷ cs) v (h, hs) = elim (Bool-cases (c.id == id)) [
  | inl e ↦ rw e (v c, update_row-AreChannels env id f cs v hs)
  | inr e ↦ rw e (h, update_row-AreChannels env id f cs v hs)
]

update-AreChannels :
    (env : Env) (now : Time) (id : ℕ) (i : UpdateInput) (db : Db)
    → ((c : Channel) → IsChannel env (changed now i c))
    → AreChannels env db
    → AreChannels env (update now id i db).1
unfolding update
update-AreChannels env now id i db v h =
    statement-AreChannels env (change_row now id i) db h
      (λ l. update_row-AreChannels env id (changed now i) db.channels v h)

keep-AreChannels :
    (env : Env) (test : Channel → Bool) (cs : List Channel)
    → All (IsChannel env) cs
    → All (IsChannel env) (keep test cs)
keep-AreChannels env test [] h = tt
keep-AreChannels env test (c ∷ cs) (h, hs) = elim (Bool-cases (test c)) [
  | inl e ↦ rw e (h, keep-AreChannels env test cs hs)
  | inr e ↦ rw e (keep-AreChannels env test cs hs)
]

pub create-AreChannels :
    (env : Env) (i : CreateInput) (w : World)
    → AreChannels env w.db
    → AreChannels env (create env i w).1.db
unfolding create
create-AreChannels env i w h =
    elim (Bool-cases (is_blank env.unicode i.name || is_blank env.unicode i.url)) [
      | inl e ↦ rw e h
      | inr named ↦ elim (Bool-cases (is_empty i.kind)) [
        | inl e ↦ rw (named, e) h
        | inr kind ↦ elim (Bool-cases (not (env.valid_url i.url))) [
          | inl e ↦ rw (named, kind, e) h
          | inr url ↦ elim (Bool-cases (not (are_valid (or_default default_events i.events)))) [
            | inl e ↦ rw (named, kind, url, e) h
            | inr known ↦
                rw (named, kind, url, known)
                  (insert-AreChannels env w.now (with_events i) w.db
                    (λ id. record {
                      named = ground arith;
                      addressed = ground arith;
                      known = ground arith;
                    })
                    h)
          ]
        ]
      ]
    ]

pub change-AreChannels :
    (env : Env) (id : ℕ) (i : UpdateInput) (w : World)
    → AreChannels env w.db
    → AreChannels env (change env id i w).1.db
unfolding change
change-AreChannels env id i w h = elim (Bool-cases (is_blank env.unicode i.name)) [
  | inl e ↦ rw e h
  | inr named ↦ elim (Bool-cases (not (is_empty i.url) && not (env.valid_url i.url))) [
    | inl e ↦ rw (named, e) h
    | inr url ↦ elim (Bool-cases (not (are_valid (or_default [] i.events)))) [
      | inl e ↦ rw (named, url, e) h
      | inr known ↦
          rw (named, url, known)
            (update-AreChannels env w.now id i w.db
              (λ c. record { named = named; addressed = ground arith; known = ground arith }) h)
    ]
  ]
]

pub remove-AreChannels :
    (env : Env) (id : ℕ) (w : World) → AreChannels env w.db → AreChannels env (remove id w).1.db
unfolding remove delete
remove-AreChannels env id w h =
    statement-AreChannels env (delete_row id) w.db h
      (λ l. keep-AreChannels env (λ c. not (c.id == id)) w.db.channels h)
