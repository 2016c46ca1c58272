-- ===== src/Auth/Service.antt =====
-- internal/auth/service.go, internal/auth/jwt.go and internal/repository/users.go: the lookups, Issue and
-- Verify, Login and CurrentUser.
use crawler_lite.Prelude.Base.{
  ℕ, ◌==◌, ◌&&◌, not, Bool, true, false, Option, none, some, List, [], ◌∷◌, ◌++◌, if◌then◌else◌,
}
use crawler_lite.Prelude.Int.{ℤ, ◌+ℤ◌}
use crawler_lite.Prelude.Text.{Str, codes, str_eq}
use crawler_lite.Result.{invalid_credentials, inactive_user, failure, wrapped, Result, ok, err}
use crawler_lite.Store.{Store, statement, or_not_found}
use crawler_lite.Spider.Model.{Time}
use crawler_lite.Auth.Model.{User, Row, Claims, Crypto}

-- The column is CITEXT: the database compares what `fold`, its `lower`, makes of both texts.
abbrev pub find_by_email : (Str → Str) → Str → List Row → Option User
find_by_email fold email [] = none
find_by_email fold email (r ∷ rs) =
    if str_eq (fold r.user.email) (fold email) && (not r.is_deleted && r.user.is_active)
    then some r.user
    else find_by_email fold email rs

abbrev pub find_by_id : ℕ → List Row → Option User
find_by_id id [] = none
find_by_id id (r ∷ rs) =
    if r.user.id == id && not r.is_deleted then some r.user else find_by_id id rs

unfoldable pub get_by_email : (Str → Str) → Str → Store (List Row) → Result User × Store (List Row)
unfolding statement
get_by_email fold email = statement (λ rows. (or_not_found (find_by_email fold email rows), rows))

unfoldable pub get_by_id : ℕ → Store (List Row) → Result User × Store (List Row)
unfolding statement
get_by_id id = statement (λ rows. (or_not_found (find_by_id id rows), rows))

-- JWTIssuer, with the libraries.
pub record Issuer : Type 0 where
  pub crypto : Crypto
  pub secret : Str
  pub ttl : ℤ

abbrev pub dated : Issuer → Time → Claims → Claims
dated j now c = record c {
  issued_at = some (j.crypto.numeric_date now);
  expires_at = some (j.crypto.numeric_date (now +ℤ j.ttl));
}

unfoldable pub issue : Issuer → Time → Claims → Result Str
issue j now c = j.crypto.sign j.secret (dated j now c)

abbrev pub hs256 : Str
hs256 = codes "HS256"

-- The key function of Verify.
abbrev pub key_for : Issuer → Str → Result Str
key_for j alg =
    if str_eq alg hs256
    then ok j.secret
    else err (failure (codes "unexpected signing method: " ++ alg))

abbrev pub valid : Result (Claims × Bool) → Result Claims
valid (err e) = err e
valid (ok (c, true)) = ok c
valid (ok (c, false)) = err (failure (codes "invalid token"))

unfoldable pub verify : Issuer → Time → Str → Result Claims
verify j now token = valid (j.crypto.parse (key_for j) now token)

abbrev pub claims_of : User → Claims
claims_of u = record {
  user_id = u.id;
  email = u.email;
  role = u.role;
  issued_at = none;
  expires_at = none;
}

abbrev pub issued : User → Result Str → Result (Str × User)
issued u (err e) = err (wrapped (codes "issue") e)
issued u (ok token) = ok (token, u)

-- Login behind the lookup, of which every error is the same.
unfoldable pub check : Issuer → Time → Str → Result User → Result (Str × User)
unfolding issue
check j now password (err e) = err invalid_credentials
check j now password (ok u) =
    if not u.is_active
    then err inactive_user
    else if not (j.crypto.compare u.password_hash password)
    then err invalid_credentials
    else issued u (issue j now (claims_of u))

unfoldable pub login :
    (Str → Str)
    → Issuer
    → Time
    → Str
    → Str
    → Store (List Row)
    → Result (Str × User) × Store (List Row)
unfolding get_by_email check
login fold j now email password db =
    let (r, db') = get_by_email fold email db in (check j now password r, db')

abbrev pub user_of : Result Claims → Store (List Row) → Result User × Store (List Row)
user_of (err e) db = (err e, db)
user_of (ok c) db = get_by_id c.user_id db

unfoldable pub current_user :
    Issuer → Time → Str → Store (List Row) → Result User × Store (List Row)
unfolding verify get_by_id
current_user j now token db = user_of (verify j now token) db
