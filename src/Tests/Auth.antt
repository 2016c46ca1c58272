-- ===== src/Tests/Auth.antt =====
-- internal/auth with one account, and libraries that know one token.
use crawler_lite.Prelude.Text.{ascii_only, to_lower, is_empty, Str, codes, str_eq}
use crawler_lite.Prelude.Base.{
  sym, Bool, ap, ◌≡◌, refl, true, false, some, List, [], ◌∷◌, ◌++◌, arith,
}
use crawler_lite.Auth.Service.{issue, Issuer, claims_of, dated, get_by_email, hs256}
use crawler_lite.Prelude.Int.{◌+ℤ◌, pos}
use crawler_lite.Result.{Result, ok, err}
use crawler_lite.Store.{Store}
use crawler_lite.Api.Reply.{send}
use crawler_lite.Auth.Model.{User, Row, Claims, Crypto, Role}
use crawler_lite.Auth.Handlers.{LoginReq, on_login, on_me, auth_middleware, bearer, response}
use crawler_lite.Api.Router.{Method, serve}
use crawler_lite.Api.Guarded.{Safe, serve-Safe}
use crawler_lite.Auth.Login.{Logs, on_login_lem}
use crawler_lite.Auth.Sessions.{Parses, on_me-issue}

abbrev ann : User
ann = record {
  id = 7;
  email = codes "ann@example.org";
  password_hash = codes "secret";
  role = Role.admin;
  display_name = codes "Ann";
  is_active = true;
}

abbrev claims : Claims
claims = record {
  user_id = 7;
  email = codes "ann@example.org";
  role = Role.admin;
  issued_at = some (pos 100);
  expires_at = some (pos 3700);
}

abbrev answer : Result Str → Result (Claims × Bool)
answer (err e) = err e
answer (ok secret) = ok (claims, true)

abbrev crypto : Crypto
crypto = record {
  compare = λ hash password. str_eq hash password;
  numeric_date = λ t. t;
  sign = λ secret k. ok (codes "t");
  parse = λ key now token. answer (key hs256);
}

abbrev issuer : Issuer
issuer = record { crypto = crypto; secret = codes "s"; ttl = pos 3600 }

abbrev request : LoginReq
request = record { email = codes "Ann@Example.org"; password = codes "secret" }

abbrev store : Store (List Row)
store = record { tables = record { user = ann; is_deleted = false } ∷ []; faults = [] }

-- The same account after its deactivation.
abbrev inactive : User
inactive = record ann { is_active = false }

abbrev later : Store (List Row)
later = record { tables = record { user = inactive; is_deleted = false } ∷ []; faults = [] }

on_login_example :
    Logs
      (to_lower ascii_only)
      issuer
      (pos 100)
      request
      store.tables
      (get_by_email (to_lower ascii_only) request.email store).0
      (on_login (to_lower ascii_only) issuer (pos 100) (some request) store).0
    × ((on_login (to_lower ascii_only) issuer (pos 100) (some request) store).1.tables
        ≡ store.tables)
on_login_example = on_login_lem (to_lower ascii_only) issuer (pos 100) request store refl

abbrev has_none : Result Str → Bool
has_none (err e) = true
has_none (ok token) = is_empty token

claims-Parses : Parses crypto (dated issuer (pos 100) (claims_of ann))
unfolding ◌+ℤ◌
claims-Parses = record {
  not_empty = λ secret token e. ap has_none (sym e);
  signed = λ secret token expiry now key s e k q. ap answer q;
}

on_me_example :
    ((on_me issuer (pos 200) (bearer ++ codes "t") later).0 ≡ send 200 (response inactive))
    × ((auth_middleware issuer (pos 200) (bearer ++ codes "t")).1
        ≡ some (dated issuer (pos 100) (claims_of ann)))
unfolding issue ◌+ℤ◌
on_me_example =
    on_me-issue issuer (pos 100) (pos 200) ann inactive (codes "t") later claims-Parses refl
      (ground arith) refl refl

-- A cancellation without a token.
serve-Safe_example :
    let path = codes "api" ∷ codes "tasks" ∷ codes "9" ∷ codes "cancel" ∷ [] in
    Safe issuer (pos 200) [] (serve issuer (pos 200) Method.post path [])
serve-Safe_example =
    serve-Safe issuer (pos 200) Method.post
      (codes "api" ∷ codes "tasks" ∷ codes "9" ∷ codes "cancel" ∷ []) []
