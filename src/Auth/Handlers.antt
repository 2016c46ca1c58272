-- ===== src/Auth/Handlers.antt =====
-- internal/api/auth/auth.go and authMiddleware of internal/api/middleware.go.
use crawler_lite.Prelude.Base.{ℕ, ◌||◌, Option, none, some, List, take, drop, if◌then◌else◌}
use crawler_lite.Prelude.Text.{Str, codes, str_eq, is_empty}
use crawler_lite.Result.{invalid_credentials, inactive_user, Result, ok, err}
use crawler_lite.Store.{Store}
use crawler_lite.Spider.Model.{Time}
use crawler_lite.Api.Reply.{Reply, fail, send, invalid_request}
use crawler_lite.Auth.Model.{User, Role, Row, Claims}
use crawler_lite.Auth.Service.{Issuer, login, current_user, verify}

pub record LoginReq : Type 0 where
  pub email : Str
  pub password : Str

pub record UserResponse : Type 0 where
  pub id : ℕ
  pub email : Str
  pub role : Role
  pub name : Str

pub record LoginResp : Type 0 where
  pub token : Str
  pub user : UserResponse

abbrev pub response : User → UserResponse
response u = record { id = u.id; email = u.email; role = u.role; name = u.display_name }

unfoldable pub login_reply : Result (Str × User) → Reply LoginResp
login_reply (err invalid_credentials) = fail 401 (codes "invalid credentials")
login_reply (err inactive_user) = fail 403 (codes "account inactive")
login_reply (err _) = fail 500 (codes "login failed")
login_reply (ok (token, u)) = send 200 (record { token = token; user = response u })

unfoldable pub on_login :
    (Str → Str)
    → Issuer
    → Time
    → Option LoginReq
    → Store (List Row)
    → Reply LoginResp × Store (List Row)
unfolding login login_reply
on_login fold j now none db = (invalid_request, db)
on_login fold j now (some q) db =
    let (r, db') = login fold j now q.email q.password db in
    if is_empty q.email || is_empty q.password
    then (fail 400 (codes "email and password required"), db)
    else (login_reply r, db')

abbrev pub bearer : Str
bearer = codes "Bearer "

-- The token behind the prefix of the header, which is empty where it is absent.
unfoldable pub token_from_header : Str → Str
token_from_header h = if str_eq (take 7 h) bearer then drop 7 h else codes ""

abbrev pub me_reply : Result User → Reply UserResponse
me_reply (err e) = fail 401 (codes "user not found")
me_reply (ok u) = send 200 (response u)

unfoldable pub on_me :
    Issuer → Time → Str → Store (List Row) → Reply UserResponse × Store (List Row)
unfolding token_from_header current_user
on_me j now header db =
    let token = token_from_header header in
    let (r, db') = current_user j now token db in
    if is_empty token then (fail 401 (codes "missing token"), db) else (me_reply r, db')

-- authMiddleware: the refusal, or the claims that it attaches.
abbrev pub attached : Result Claims → Reply (Unit {0}) × Option Claims
attached (err e) = (fail 401 (codes "invalid token"), none)
attached (ok c) = (send 200 tt, some c)

unfoldable pub auth_middleware : Issuer → Time → Str → Reply (Unit {0}) × Option Claims
unfolding verify
auth_middleware j now header =
    if str_eq (take 7 header) bearer
    then attached (verify j now (drop 7 header))
    else (fail 401 (codes "missing bearer token"), none)
