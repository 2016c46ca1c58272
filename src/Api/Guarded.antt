-- ===== src/Api/Guarded.antt =====
-- internal/api/router.go: the handlers that a request without a token reaches.
use mathlib.Core.Bool.{false≢true}
use mathlib.Core.Option.{some-injective, none-ne-some}
use mathlib.Core.Path.{subst}
use crawler_lite.Prelude.Base.{
  ◌≡◌, refl, sym, ◌∙◌, ◌⊎◌, inl, inr, Bool, true, false, ◌&&◌, Bool-cases, Option, none, some, List,
  [], ◌∷◌, All, All-append, take, drop,
}
use crawler_lite.Prelude.Text.{Str, codes, str_eq}
use crawler_lite.Result.{Result, ok, err}
use crawler_lite.Spider.Model.{Time}
use crawler_lite.Auth.Model.{Claims}
use crawler_lite.Auth.Service.{Issuer, verify}
use crawler_lite.Auth.Handlers.{auth_middleware, bearer, attached}
use crawler_lite.Api.Router.{
  Method, options, Access, unguarded, guarded, Segment, fixed, id_param, Route, same, fits, routes,
  public_routes, guarded_routes, find_route, Outcome, replied, web_client, handled, admitted,
  routed, serve,
}

-- The patterns of the routes that need no token: the health check, the version, the login, and the log
-- stream, whose handler asks for a token itself.
abbrev pub IsPublic : List Segment → Type 0
IsPublic p =
    (p ≡ fixed (codes "healthz") ∷ [])
    ⊎ (p ≡ fixed (codes "api") ∷ fixed (codes "version") ∷ [])
    ⊎ (p ≡ fixed (codes "api") ∷ fixed (codes "auth") ∷ fixed (codes "login") ∷ [])
    ⊎ (p
        ≡ fixed (codes "api")
          ∷ fixed (codes "tasks")
          ∷ id_param
          ∷ fixed (codes "log")
          ∷ fixed (codes "stream")
          ∷ [])

-- Who may reach a handler: anyone on a public route, and the bearer of a token on any.
pub data Allowed (j : Issuer) (now : Time) (header : Str) : Route → Option Claims → Type 0 where
  without_token : (r : Route) → IsPublic r.pattern → Allowed j now header r none
  with_token :
      (r : Route) (claims : Claims)
      → str_eq (take 7 header) bearer ≡ true
      → verify j now (drop 7 header) ≡ ok claims
      → Allowed j now header r (some claims)

-- What may become of a request.
abbrev pub Safe : Issuer → Time → Str → Outcome → Type 0
Safe j now header (replied reply) = (reply.status ≡ 204) ⊎ (reply.status ≡ 401)
Safe j now header web_client = Unit {0}
Safe j now header (handled r claims) = Allowed j now header r claims

IsGated : Route → Type 0
IsGated r = (r.access ≡ guarded) ⊎ IsPublic r.pattern

are_guarded : List Route → Bool
are_guarded [] = true
are_guarded (r ∷ rs) =
    let rest = are_guarded rs in elim r.access [ guarded ↦ rest | unguarded ↦ false ]

guarded-IsGated : (rs : List Route) → are_guarded rs ≡ true → All IsGated rs
unfolding are_guarded IsGated
guarded-IsGated [] e = tt
guarded-IsGated (r ∷ rs) e = by_access r.access refl e (guarded-IsGated rs)
  where
    by_access :
        (a : Access)
        → r.access ≡ a
        → (elim a [ guarded ↦ are_guarded rs | unguarded ↦ false ]) ≡ true
        → (are_guarded rs ≡ true → All IsGated rs)
        → All IsGated (r ∷ rs)
    by_access guarded q e later = (inl q, later e)
    by_access unguarded q e later = absurd (false≢true e)

public-IsGated : All IsGated public_routes
unfolding IsGated
public-IsGated = (
  inr (inl refl),
  (inr (inr (inl refl)), (inr (inr (inr (inl refl))), (inr (inr (inr (inr refl))), tt))),
)

routes-IsGated : All IsGated routes
unfolding are_guarded
routes-IsGated =
    All-append IsGated public_routes guarded_routes public-IsGated
      (guarded-IsGated guarded_routes refl)

find_route-IsGated :
    (m : Method) (path : List Str) (rs : List Route)
    → All IsGated rs
    → (r : Route) → find_route m path rs ≡ some r
    → IsGated r
unfolding find_route
find_route-IsGated m path [] h r e = absurd (none-ne-some r e)
find_route-IsGated m path (s ∷ rs) (k, h) r e =
    elim (Bool-cases (same s.method m && fits s.pattern path)) [
      | inl found ↦ subst IsGated (some-injective s r (sym (rw found refl) ∙ e)) k
      | inr later ↦ find_route-IsGated m path rs h r (sym (rw later refl) ∙ e)
    ]

admitted-Safe :
    (j : Issuer) (now : Time) (header : Str) (r : Route)
    → Safe j now header (admitted r (auth_middleware j now header))
unfolding auth_middleware
admitted-Safe j now header r = elim (Bool-cases (str_eq (take 7 header) bearer)) [
  | inr without ↦ rw without (inr refl)
  | inl token ↦ rw token (attached-Safe token (verify j now (drop 7 header)) refl)
]
  where
    attached-Safe :
        str_eq (take 7 header) bearer ≡ true
        → (x : Result Claims) → verify j now (drop 7 header) ≡ x
        → Safe j now header (admitted r (attached x))
    attached-Safe token (err e) q = inr refl
    attached-Safe token (ok claims) q = with_token r claims token q

unguarded_alone : unguarded ≡ guarded → ⊥
unguarded_alone e = cc

gated-Safe :
    (j : Issuer) (now : Time) (header : Str) (r : Route) (a : Access)
    → r.access ≡ a
    → IsGated r
    → Safe j now header (elim a [
      | unguarded ↦ handled r none
      | guarded ↦ admitted r (auth_middleware j now header)
    ])
unfolding IsGated
gated-Safe j now header r guarded e g = admitted-Safe j now header r
gated-Safe j now header r unguarded e (inl e') = absurd (unguarded_alone (sym e ∙ e'))
gated-Safe j now header r unguarded e (inr p) = without_token r p

routed-Safe :
    (j : Issuer) (now : Time) (header : Str) (o : Option Route)
    → ((r : Route) → o ≡ some r → IsGated r)
    → Safe j now header (routed j now header o)
routed-Safe j now header none h = tt
routed-Safe j now header (some r) h = gated-Safe j now header r r.access refl (h r refl)

-- Whatever the request: it is answered by a middleware with 204 or 401, or it goes to the embedded web
-- client, or it reaches a handler; and then its header has a token that verifies, whose claims are
-- attached, or the route is the health check, the version, the login or the log stream.
pub serve-Safe :
    (j : Issuer) (now : Time) (m : Method) (path : List Str) (header : Str)
    → Safe j now header (serve j now m path header)
unfolding serve
serve-Safe j now m path header = elim (Bool-cases (same options m)) [
  | inl e ↦ rw e (inl refl)
  | inr e ↦ rw e (
      routed-Safe j now header (find_route m path routes)
        (find_route-IsGated m path routes routes-IsGated))
]
