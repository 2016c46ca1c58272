-- ===== src/Auth/Login.antt =====
-- internal/auth/service.go and internal/api/auth/auth.go: the answers to a login.
use mathlib.Core.Bool.{Bool-set, false≢true}
use mathlib.Core.List.{not-mem-nil, Mem, mem-cons, mem-cons_of_mem, mem-cons_self}
use mathlib.Core.Logic.Or
use crawler_lite.Prelude.Text.{str_eq_iff, Str, codes, is_empty, str_eq}
use mathlib.Core.Path.{subst}
use crawler_lite.Result.{invalid_credentials, db_error, inactive_user, Error, Result, ok, err}
use crawler_lite.Api.Reply.{send, fail, Reply}
use crawler_lite.Prelude.Base.{
  arith, ◌≡◌, refl, sym, ap, ◌∙◌, inl, inr, ◌&&◌, ◌||◌, not, Bool, true, false, Option, none, some,
  List, [], ◌∷◌, if◌then◌else◌,
}
use crawler_lite.Spider.Model.{Time}
use mathlib.Core.Option.{some-injective}
use crawler_lite.Store.{Store, statement_cases, or_not_found}
use crawler_lite.Auth.Model.{User, Row}
use crawler_lite.Auth.Service.{
  Issuer, find_by_email, get_by_email, check, issue, claims_of, issued, login,
}
use crawler_lite.Auth.Handlers.{LoginReq, LoginResp, on_login, login_reply, response}

-- The account of an address: an active user whose row is not deleted, with that address in any case.
pub record Account (fold : Str → Str) (email : Str) (rows : List Row) (u : User) : Type 0 where
  pub row : Row
  pub stored : Mem row rows
  pub owner : row.user ≡ u
  pub address : fold u.email ≡ fold email
  pub kept : row.is_deleted ≡ false
  pub active : u.is_active ≡ true

later_Account :
    (fold : Str → Str) (email : Str) (r : Row) (rs : List Row) (u : User)
    → Account fold email rs u
    → Account fold email (r ∷ rs) u
later_Account fold email r rs u a = record {
  row = a.row;
  stored = mem-cons_of_mem r a.stored;
  owner = a.owner;
  address = a.address;
  kept = a.kept;
  active = a.active;
}

-- The test of a row.
abbrev selects : (Str → Str) → Str → Row → Bool
selects fold email r =
    str_eq (fold r.user.email) (fold email) && (not r.is_deleted && r.user.is_active)

first_Account :
    (fold : Str → Str) (email : Str) (r : Row) (rs : List Row)
    → selects fold email r ≡ true
    → Account fold email (r ∷ rs) r.user
first_Account fold email r rs e = record {
  row = r;
  stored = mem-cons_self;
  owner = refl;
  address = (str_eq_iff (fold r.user.email) (fold email)).0 (ground (arith, e));
  kept = ground (arith, e);
  active = ground (arith, e);
}

find_by_email-Account :
    (fold : Str → Str) (email : Str) (rows : List Row) (u : User)
    → find_by_email fold email rows ≡ some u
    → Account fold email rows u
find_by_email-Account fold email [] u e = cc
find_by_email-Account fold email (r ∷ rs) u e =
    found_or_not (selects fold email r) refl e (find_by_email-Account fold email rs u)
  where
    found_or_not :
        (b : Bool)
        → selects fold email r ≡ b
        → (if b then some r.user else find_by_email fold email rs) ≡ some u
        → (find_by_email fold email rs ≡ some u → Account fold email rs u)
        → Account fold email (r ∷ rs) u
    found_or_not true q h k =
        subst (Account fold email (r ∷ rs)) (some-injective r.user u h)
          (first_Account fold email r rs q)
    found_or_not false q h k = later_Account fold email r rs u (k h)

-- No row passes the test where the lookup finds none.
none-selected :
    (fold : Str → Str) (email : Str) (rows : List Row) (r : Row)
    → find_by_email fold email rows ≡ none
    → Mem r rows
    → selects fold email r ≡ false
none-selected fold email [] r e m = absurd (not-mem-nil m)
none-selected fold email (x ∷ rs) r e m =
    neither (selects fold email x) refl e (none-selected fold email rs r)
  where
    neither :
        (b : Bool)
        → selects fold email x ≡ b
        → (if b then some x.user else find_by_email fold email rs) ≡ none
        → (find_by_email fold email rs ≡ none → Mem r rs → selects fold email r ≡ false)
        → selects fold email r ≡ false
    neither true q h k = cc
    neither false q h k =
        Or.elim (Bool-set _ _) (mem-cons.0 m) (λ p. ap (selects fold email) p ∙ q) (k h)

none-Account :
    (fold : Str → Str) (email : Str) (rows : List Row) (u : User)
    → find_by_email fold email rows ≡ none
    → ¬ Account fold email rows u
none-Account fold email rows u e a =
    let t : selects fold email a.row ≡ true =
      rw
        (
          (str_eq_iff (fold a.row.user.email) (fold email)).1
              (ap (λ (v : User). fold v.email) a.owner ∙ a.address),
          a.kept,
        )
        (ap (λ (v : User). v.is_active) a.owner ∙ a.active) in
    false≢true (sym (none-selected fold email rows a.row e a.stored) ∙ t)

-- What a login with an address and a password comes to.
pub data Logs (fold : Str → Str) (j : Issuer) (now : Time) (q : LoginReq) (rows : List Row)
    (found : Result User) : Reply LoginResp → Type 0 where
  lookup_fails :
      (m : Str)
      → found ≡ err (db_error m)
      → Logs fold j now q rows found (fail 401 (codes "invalid credentials"))
  unknown :
      ((u : User) → ¬ Account fold q.email rows u)
      → Logs fold j now q rows found (fail 401 (codes "invalid credentials"))
  wrong_password :
      (u : User)
      → Account fold q.email rows u
      → j.crypto.compare u.password_hash q.password ≡ false
      → Logs fold j now q rows found (fail 401 (codes "invalid credentials"))
  unsigned :
      (u : User) (e : Error)
      → Account fold q.email rows u
      → j.crypto.compare u.password_hash q.password ≡ true
      → issue j now (claims_of u) ≡ err e
      → Logs fold j now q rows found (fail 500 (codes "login failed"))
  welcome :
      (u : User) (token : Str)
      → Account fold q.email rows u
      → j.crypto.compare u.password_hash q.password ≡ true
      → issue j now (claims_of u) ≡ ok token
      → Logs fold j now q rows found (send 200 (record { token = token; user = response u }))

module _ (fold : Str → Str) (j : Issuer) (now : Time) (q : LoginReq) (rows : List Row)
    (found : Result User) where
  issued-Logs :
      (u : User) (r : Result Str)
      → Account fold q.email rows u
      → j.crypto.compare u.password_hash q.password ≡ true
      → issue j now (claims_of u) ≡ r
      → Logs fold j now q rows found (login_reply (issued u r))
  unfolding login_reply
  issued-Logs u (err e) f c i = unsigned u e f c i
  issued-Logs u (ok token) f c i = welcome u token f c i

  check-Logs :
      (o : Option User)
      → find_by_email fold q.email rows ≡ o
      → Logs fold j now q rows found (login_reply (check j now q.password (or_not_found o)))
  unfolding check login_reply
  check-Logs none f = unknown (λ u. none-Account fold q.email rows u f)
  check-Logs (some u) f =
      let account = find_by_email-Account fold q.email rows u f in
      answered account u.is_active (j.crypto.compare u.password_hash q.password) (account.active)
        refl
    where
      answered :
          Account fold q.email rows u
          → (a c : Bool) → a ≡ true
          → j.crypto.compare u.password_hash q.password ≡ c
          → Logs fold j now q rows found (
              login_reply (
                if not a
                then err inactive_user
                else if not c
                then err invalid_credentials
                else issued u (issue j now (claims_of u))))
      answered f true true h c = issued-Logs u (issue j now (claims_of u)) f c refl
      answered f true false h c = wrong_password u f c
      answered f false c h d = absurd (false≢true h)

-- A login with an address and a password is refused with one and the same answer where no row that is not
-- deleted has an active user with the address (the database's `lower` makes the same of both), where the lookup fails and where the password
-- does not match; so the answer for an inactive account never occurs. Otherwise it gives the token
-- that was signed for a user of that address, or an internal error where signing fails. The rows stay
-- as they are.
pub on_login_lem :
    (fold : Str → Str) (j : Issuer) (now : Time) (q : LoginReq) (db : Store (List Row))
    → (is_empty q.email || is_empty q.password) ≡ false
    → Logs fold j now q db.tables
        (get_by_email fold q.email db).0
        (on_login fold j now (some q) db).0
      × ((on_login fold j now (some q) db).1.tables ≡ db.tables)
unfolding on_login login get_by_email check login_reply
on_login_lem fold j now q db e =
    elim (statement_cases
      (λ (rows : List Row). (or_not_found (find_by_email fold q.email rows), rows)) db) [
        | inl (m, l, p) ↦ rw e (rw p (lookup_fails m refl, refl))
        | inr (l, p) ↦ rw e (
            rw p (
              check-Logs fold j now q db.tables
                  (or_not_found (find_by_email fold q.email db.tables))
                  (find_by_email fold q.email db.tables) refl,
              refl,
            ))
      ]
