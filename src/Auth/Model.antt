-- ===== src/Auth/Model.antt =====
-- internal/auth/service.go and jwt.go: users, claims, and the libraries behind the hasher and the tokens.
use crawler_lite.Prelude.Base.{ℕ, Bool, Option}
use crawler_lite.Prelude.Text.{Str}
use crawler_lite.Result.{Result}
use crawler_lite.Spider.Model.{Time}

pub data Role : Type 0 where
  admin editor viewer : Role

pub record User : Type 0 where
  pub id : ℕ
  pub email : Str
  pub password_hash : Str
  pub role : Role
  pub display_name : Str
  pub is_active : Bool

-- A row of users, with whether deleted_at is set.
pub record Row : Type 0 where
  pub user : User
  pub is_deleted : Bool

-- `none` is a nil registered time.
pub record Claims : Type 0 where
  pub user_id : ℕ
  pub email : Str
  pub role : Role
  pub issued_at : Option Time
  pub expires_at : Option Time

-- bcrypt's comparison; of golang-jwt, NewNumericDate, SignedString with HS256, and ParseWithClaims at a
-- time, whose key function answers for the algorithm in the token's header, with `t.Valid`.
pub record Crypto : Type 0 where
  pub compare : Str → Str → Bool
  pub numeric_date : Time → Time
  pub sign : Str → Claims → Result Str
  pub parse : (Str → Result Str) → Time → Str → Result (Claims × Bool)
