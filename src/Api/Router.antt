-- ===== src/Api/Router.antt =====
-- internal/api/router.go and corsMiddleware of internal/api/middleware.go: which handler a request reaches. A
-- path is its list of segments.
use crawler_lite.Prelude.Base.{
  ◌&&◌, not, Bool, true, false, Option, none, some, List, [], ◌∷◌, ◌++◌, if◌then◌else◌,
}
use crawler_lite.Prelude.Text.{Str, codes, str_eq, is_empty}
use crawler_lite.Spider.Model.{Time}
use crawler_lite.Api.Reply.{Reply, no_body}
use crawler_lite.Auth.Model.{Claims}
use crawler_lite.Auth.Service.{Issuer}
use crawler_lite.Auth.Handlers.{auth_middleware}

pub data Method : Type 0 where
  get post patch delete options other : Method

abbrev pub same : Method → Method → Bool
same get get = true
same post post = true
same patch patch = true
same delete delete = true
same options options = true
same other other = true
same _ _ = false

-- The groups of routes: behind authMiddleware or not.
pub data Access : Type 0 where
  unguarded guarded : Access

pub data Segment : Type 0 where
  fixed : Str → Segment
  id_param : Segment

pub record Route : Type 0 where
  pub method : Method
  pub pattern : List Segment
  pub access : Access

-- A parameter takes any segment that is not empty.
abbrev pub fits : List Segment → List Str → Bool
fits [] [] = true
fits [] (s ∷ path) = false
fits (p ∷ ps) [] = false
fits (fixed k ∷ ps) (s ∷ path) = str_eq k s && fits ps path
fits (id_param ∷ ps) (s ∷ path) = not (is_empty s) && fits ps path

abbrev pub api : Access → Method → List Segment → Route
api access method pattern = record {
  method = method;
  pattern = fixed (codes "api") ∷ pattern;
  access = access;
}

-- The routes of a resource: its list and its rows.
abbrev pub list_at : Str → List Segment
list_at name = fixed name ∷ []

abbrev pub row_at : Str → List Segment
row_at name = fixed name ∷ id_param ∷ []

abbrev pub part_at : Str → Str → List Segment
part_at name part = fixed name ∷ id_param ∷ fixed part ∷ []

-- NewRouter and the RegisterRoutes functions of the packages that it calls. No two patterns of one method
-- fit the same path, so their order does not matter.
abbrev pub public_routes : List Route
public_routes =
    record { method = get; pattern = fixed (codes "healthz") ∷ []; access = unguarded }
    ∷ api unguarded get (list_at (codes "version"))
    ∷ api unguarded post (fixed (codes "auth") ∷ fixed (codes "login") ∷ [])
    ∷ api unguarded get
        (fixed (codes "tasks") ∷ id_param ∷ fixed (codes "log") ∷ fixed (codes "stream") ∷ [])
    ∷ []

abbrev pub guarded_routes : List Route
guarded_routes =
    api guarded get (fixed (codes "auth") ∷ fixed (codes "me") ∷ [])
    ∷ api guarded get (list_at (codes "spiders"))
    ∷ api guarded get (row_at (codes "spiders"))
    ∷ api guarded post (list_at (codes "spiders"))
    ∷ api guarded patch (row_at (codes "spiders"))
    ∷ api guarded delete (row_at (codes "spiders"))
    ∷ api guarded post (part_at (codes "spiders") (codes "sync"))
    ∷ api guarded get (list_at (codes "tasks"))
    ∷ api guarded get (row_at (codes "tasks"))
    ∷ api guarded post (list_at (codes "tasks"))
    ∷ api guarded post (part_at (codes "tasks") (codes "cancel"))
    ∷ api guarded get (part_at (codes "tasks") (codes "items"))
    ∷ api guarded get (part_at (codes "tasks") (codes "screenshots"))
    ∷ api guarded get (part_at (codes "tasks") (codes "log"))
    ∷ api guarded get (list_at (codes "schedules"))
    ∷ api guarded get (row_at (codes "schedules"))
    ∷ api guarded post (list_at (codes "schedules"))
    ∷ api guarded patch (row_at (codes "schedules"))
    ∷ api guarded delete (row_at (codes "schedules"))
    ∷ api guarded get (list_at (codes "notifications"))
    ∷ api guarded get (row_at (codes "notifications"))
    ∷ api guarded post (list_at (codes "notifications"))
    ∷ api guarded patch (row_at (codes "notifications"))
    ∷ api guarded delete (row_at (codes "notifications"))
    ∷ api guarded post (part_at (codes "notifications") (codes "test"))
    ∷ api guarded get (list_at (codes "workers"))
    ∷ []

abbrev pub routes : List Route
routes = public_routes ++ guarded_routes

unfoldable pub find_route : Method → List Str → List Route → Option Route
find_route m path [] = none
find_route m path (r ∷ rs) =
    let later = find_route m path rs in
    if same r.method m && fits r.pattern path then some r else later

-- What becomes of a request: the reply of a middleware, the embedded web client, or a handler with the
-- claims that are attached.
pub data Outcome : Type 0 where
  replied : Reply (Unit {0}) → Outcome
  web_client : Outcome
  handled : Route → Option Claims → Outcome

-- A reply of authMiddleware aborts the chain.
abbrev pub admitted : Route → Reply (Unit {0}) × Option Claims → Outcome
admitted r (reply, none) = replied reply
admitted r (reply, some claims) = handled r (some claims)

abbrev pub routed : Issuer → Time → Str → Option Route → Outcome
routed j now header none = web_client
routed j now header (some r) = elim r.access [
  | unguarded ↦ handled r none
  | guarded ↦ admitted r (auth_middleware j now header)
]

-- A request behind corsMiddleware, which answers every OPTIONS request itself.
unfoldable pub serve : Issuer → Time → Method → List Str → Str → Outcome
unfolding find_route auth_middleware
serve j now m path header =
    if same options m
    then replied (record { status = 204; body = no_body })
    else routed j now header (find_route m path routes)
