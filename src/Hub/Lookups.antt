-- ===== src/Hub/Lookups.antt =====
-- internal/hub/hub.go: what a look-up in the hub's maps finds behind a write.
use crawler_lite.Prelude.Base.{
  inr, ap, true, ◌∙◌, sym, inl, Bool-cases, false, some, ◌==◌, List, ℕ, ◌≡◌, refl, [], ◌∷◌, arith,
}
use mathlib.Core.Path.{subst}
use mathlib.Core.Option.{some-injective}
use crawler_lite.Hub.Model.{delete_meta, find_meta, update_session, TaskMeta, find_session, Session}

pub find-update_same :
    (sid : ℕ) (f : Session → Session) (s : Session) (ss : List Session)
    → (f s).session_id ≡ s.session_id
    → find_session sid ss ≡ some s
    → find_session sid (update_session sid f ss) ≡ some (f s)
find-update_same sid f s [] same e = cc
find-update_same sid f s (u ∷ ss) same e = elim (Bool-cases (u.session_id == sid)) [
  | inl k ↦
      let p : u ≡ s = some-injective u s (sym (rw k refl) ∙ e) in
      let q : ((f u).session_id == sid) ≡ true =
        rw (p, same) (subst (λ x. (x.session_id == sid) ≡ true) p k) in
      rw (k, q) (ap (λ x. some (f x)) p)
  | inr k ↦ rw (k, k) (find-update_same sid f s ss same (sym (rw k refl) ∙ e))
]

pub find-update_other :
    (sid other : ℕ) (f : Session → Session) (ss : List Session)
    → ((s : Session) → (f s).session_id ≡ s.session_id)
    → (other == sid) ≡ false
    → find_session other (update_session sid f ss) ≡ find_session other ss
find-update_other sid other f [] same n = refl
find-update_other sid other f (u ∷ ss) same n =
    ground (arith, same u, n, find-update_other sid other f ss same n)

pub find-delete_other :
    (id other : ℕ) (ts : List (ℕ × TaskMeta))
    → (other == id) ≡ false
    → find_meta other (delete_meta id ts) ≡ find_meta other ts
find-delete_other id other [] n = refl
find-delete_other id other ((k, m) ∷ ts) n = ground (arith, n, find-delete_other id other ts n)
