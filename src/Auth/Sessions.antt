-- ===== src/Auth/Sessions.antt =====
-- internal/auth/jwt.go and internal/api/auth/auth.go: a token from its login to its use.
use crawler_lite.Auth.Service.{
  user_of, key_for, valid, Issuer, find_by_id, get_by_id, issue, verify, claims_of, dated, hs256,
  current_user,
}
use crawler_lite.Auth.Handlers.{
  me_reply, attached, bearer, on_me, token_from_header, auth_middleware, response,
}
use crawler_lite.Prelude.Text.{str_eq, Str, is_empty}
use crawler_lite.Spider.Model.{Time}
use crawler_lite.Prelude.Base.{◌≡◌, refl, ap, ◌∙◌, true, false, some, List, [], ◌++◌}
use crawler_lite.Prelude.Int.{◌+ℤ◌, ◌<ℤ◌}
use crawler_lite.Result.{Result, ok}
use crawler_lite.Store.{Store, statement_calm, or_not_found}
use crawler_lite.Api.Reply.{send}
use crawler_lite.Auth.Model.{User, Row, Claims, Crypto}

-- What golang-jwt documents, of the claims `k`: a token that SignedString makes of them under HS256 is
-- not empty, and until its expiry ParseWithClaims asks the key function for HS256 and answers the
-- claims, valid, if that gives the secret of the signature.
pub record Parses (c : Crypto) (k : Claims) : Type 0 where
  pub not_empty : (secret token : Str) → c.sign secret k ≡ ok token → is_empty token ≡ false
  pub signed :
      (secret token : Str) (expiry now : Time) (key : Str → Result Str)
      → c.sign secret k ≡ ok token
      → k.expires_at ≡ some expiry
      → now <ℤ expiry
      → key hs256 ≡ ok secret
      → c.parse key now token ≡ ok (k, true)

-- A token that was issued verifies until it expires, and gives the claims with their dates.
pub verify-issue :
    (j : Issuer) (at now : Time) (c : Claims) (token : Str)
    → Parses j.crypto (dated j at c)
    → issue j at c ≡ ok token
    → now <ℤ j.crypto.numeric_date (at +ℤ j.ttl)
    → verify j now token ≡ ok (dated j at c)
unfolding issue verify str_eq
verify-issue j at now c token p i k =
    ap valid
      (p.signed j.secret token (j.crypto.numeric_date (at +ℤ j.ttl)) now (key_for j) i refl k refl)

-- Until it expires, and while statements succeed, the token of a login opens /auth/me on every table in
-- which its user's row is not deleted, and shows that row, whether the user is still active or not; and
-- the middleware lets it pass with the user's claims.
pub on_me-issue :
    (j : Issuer) (at now : Time) (u v : User) (token : Str) (db : Store (List Row))
    → Parses j.crypto (dated j at (claims_of u))
    → issue j at (claims_of u) ≡ ok token
    → now <ℤ j.crypto.numeric_date (at +ℤ j.ttl)
    → db.faults ≡ []
    → find_by_id u.id db.tables ≡ some v
    → ((on_me j now (bearer ++ token) db).0 ≡ send 200 (response v))
      × ((auth_middleware j now (bearer ++ token)).1 ≡ some (dated j at (claims_of u)))
unfolding on_me auth_middleware token_from_header current_user get_by_id str_eq issue
on_me-issue j at now u v token db p i k e f = (
  rw (p.not_empty j.secret token i) (
      ap (λ c. me_reply (user_of c db).0) (verify-issue j at now (claims_of u) token p i k)
      ∙ ap (λ r. me_reply r.0)
          (statement_calm (λ (rows : List Row). (or_not_found (find_by_id u.id rows), rows)) db e)
      ∙ ap (λ o. me_reply (or_not_found o)) f),
  ap (λ r. (attached r).1) (verify-issue j at now (claims_of u) token p i k),
)
