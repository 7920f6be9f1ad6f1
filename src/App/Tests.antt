-- ===== src/App/Tests.antt =====
-- A server with one option, and a route that panics.
use yuna.Prelude.{
  ◌∙◌, true, false, ◌==◌, if◌then◌else◌, some, String, List, arith, none, inr, ◌++◌, [], ◌∷◌, ◌≡◌,
  refl, pos,
}
use yuna.World.{Request, World, Outcome, Handler, write_header, write, returned, world_of, conn_of}
use yuna.Handler.Nesting.{nest}
use yuna.Middleware.Metrics.Balance
use yuna.Router.Lists.{tree_chi, documented, no_routes}
use yuna.Router.Trees.{empty_view}
use yuna.Operations.Endpoints.{Sources}
use yuna.Operations.Served.{routes_of, mounts_of}
use yuna.App.Built.{new, new_serves}
use yuna.Options.{BaseOption, with_metrics, with_health_checks, with_http_port, authenticating}
use yuna.Auth.{
  HttpAuthenticator, principal, nop_authenticator, nop_principal, authenticated, require_role,
}
use yuna.Http.Conn.{Conn}
use yuna.App.Answered.{Leaves, serve_http_keeps_response}
use yuna.App.Denied.{RefusedWith, serve_http_sends_refusal}
use yuna.App.Through.Unsent.{HoldsWithId}
use yuna.Http.Header
use yuna.Http.Header.Laws.{get-set}
use yuna.App.Refused.{Refuses, serve_http_hides}
use yuna.App.Through.{HasNoBody, body-IsCarried, Gives, LetsThrough, Answers}
use yuna.Http.Header.{Header}
use yuna.App.Crash.{AnyWorld, HasCrashed, HasSent, serve_http_sends_500, serve_http_keeps_status}
use yuna.App.{Packages, Yuna, new_yuna, serve_http}
use yuna.App.Order.{RunsInOrder}
use yuna.App.Kept.{Keeps, LeavesGauge, serve_http-Level, serve_http_returns}
use yuna.Sample.{marshal, start, has, pattern, logs, crash, nothing, request, world}

abbrev packages : Packages
packages = record {
  marshal = marshal;
  info = λ entries. "info";
  otel = λ opts h. h;
  start = start;
  has = has;
  pattern = pattern;
  chain = nest;
}

packages-RunsInOrder : RunsInOrder packages
packages-RunsInOrder ms h = refl

packages-LeavesGauge : LeavesGauge packages
packages-LeavesGauge opts h k = k

abbrev server : Yuna
server = new_yuna packages logs (with_http_port (pos 80) ∷ [])

crash-Keeps : Keeps crash
crash-Keeps r w = refl

serve_http-Level_example :
    Balance.Level world (world_of (serve_http packages server "u-1" crash request world))
serve_http-Level_example =
    serve_http-Level packages server "u-1" crash request world packages-RunsInOrder
      packages-LeavesGauge crash-Keeps

serve_http_returns_example :
    serve_http packages server "u-1" crash request world
    ≡ returned (world_of (serve_http packages server "u-1" crash request world))
serve_http_returns_example =
    serve_http_returns packages server "u-1" crash request world packages-RunsInOrder

packages-LetsThrough : (P : World → Type 0) (Q : Outcome → Type 0) → LetsThrough P Q packages
packages-LetsThrough P Q opts h k = k

abbrev guarded : Yuna
guarded = new_yuna packages logs (authenticating nop_authenticator ∷ [])

crash-Gives : Gives AnyWorld HasCrashed crash
crash-Gives r w t u = u

guarded-Answers : Answers guarded.config.authenticator
unfolding new_yuna yuna.Options.new_config nop_authenticator
guarded-Answers r w = (nop_principal, refl)

serve_http_sends_500_example :
    (conn_of (world_of (serve_http packages guarded "u-1" crash request world)).writer).status ≡ 500
serve_http_sends_500_example =
    serve_http_sends_500 packages guarded "u-1" crash request world packages-RunsInOrder
      (packages-LetsThrough AnyWorld HasCrashed) guarded-Answers crash-Gives refl

nop-Refuses : Refuses nop_authenticator
unfolding nop_authenticator nop_principal
nop-Refuses r w = refl

-- The no-op authenticator hides a handler that panics as well as one that does nothing.
serve_http_hides_example :
    serve_http packages guarded "u-1" (authenticated marshal start crash) request world
    ≡ serve_http packages guarded "u-1" (authenticated marshal start nothing) request world
unfolding new_yuna yuna.Options.new_config
serve_http_hides_example =
    serve_http_hides packages crash nothing guarded "u-1" nop_authenticator request world
      packages-RunsInOrder refl nop-Refuses

abbrev teapot : Handler
teapot r w = returned (write_header 418 w)

teapot-Gives : Gives AnyWorld (HasSent 418) teapot
unfolding write_header yuna.Http.Conn.write_header yuna.Http.Conn.is_informational
    yuna.Middleware.ResponseWriter.write_header
teapot-Gives r w t u = ground (arith, u)

serve_http_keeps_status_run : HasSent 418 (serve_http packages guarded "u-1" teapot request world)
serve_http_keeps_status_run =
    serve_http_keeps_status packages 418 guarded "u-1" teapot request world packages-RunsInOrder
      (packages-LetsThrough AnyWorld (HasSent 418)) guarded-Answers teapot-Gives refl

abbrev sources : Sources
sources = record {
  metrics = nothing;
  default_mux = nothing;
  health = nothing;
  build_info = λ r. none;
  uptime = λ r. some "{}";
  level = λ r. inr "EOF";
  response = λ err. some err;
  show = λ n. "8082";
}

abbrev uuid_of : Request → String
uuid_of r = "u-1"

abbrev options : List BaseOption
options = with_metrics ∷ with_health_checks ∷ []

new_serves_example :
    let (b, s') = new tree_chi packages sources uuid_of logs options no_routes in
    let z = new_yuna packages logs options in
    let served = s'.view (documented.tree b.op_server.handler) in
    (served.routes ≡ routes_of sources z.logger)
    × (served.mounts ≡ mounts_of sources z.config)
    × (s'.view (documented.tree b.router) ≡ empty_view)
    × (s'.panicked ≡ false)
unfolding new_yuna yuna.Options.new_config yuna.Router.Trees.takes_routes
    yuna.Router.Trees.takes_route yuna.Router.Trees.is_plain yuna.Text.has_prefix yuna.Text.before
    yuna.Text.has_suffix yuna.Router.Trees.slashed yuna.Router.Trees.takes_mounts
    yuna.Router.Trees.takes_mount
new_serves_example =
    new_serves tree_chi documented packages sources uuid_of logs options no_routes refl

-- An authenticator that takes a request without the header Authorization for an anonymous one.
abbrev token_authenticator : HttpAuthenticator
token_authenticator r w = principal (
    some (
      if Header.get "Authorization" w.request_header == ""
      then nop_principal
      else record nop_principal { anonymous = false }))

abbrev HasNoToken : Header → Type 0
HasNoToken h = Header.get "Authorization" h ≡ ""

HasNoToken-HoldsWithId : HoldsWithId HasNoToken
unfolding Header.canonical
HasNoToken-HoldsWithId id h e = get-set "X-Request-ID" "Authorization" id h ∙ e

token_refused :
    (r : Request) (w : World)
    → HasNoToken w.request_header
    → RefusedWith "admin" (token_authenticator r w) 401
unfolding nop_principal
token_refused r w e = rw e refl

abbrev tokens : Yuna
tokens = new_yuna packages logs (authenticating token_authenticator ∷ [])

serve_http_sends_refusal_example :
    HasSent 401
      (serve_http packages tokens "u-1" (require_role marshal start "admin" crash) request world)
unfolding new_yuna yuna.Options.new_config Header.get Header.canonical yuna.Prelude.lookup
serve_http_sends_refusal_example =
    serve_http_sends_refusal packages "admin" crash HasNoToken token_authenticator 401 tokens "u-1"
      request world packages-RunsInOrder
      (packages-LetsThrough (λ w. HasNoToken w.request_header) (HasSent 401)) HasNoToken-HoldsWithId
      refl token_refused refl refl

-- A route that writes one chunk to the body.
abbrev greeting : Handler
greeting r w = returned (write "hi" (write_header 200 w)).0

abbrev IsGreeted : Conn → Type 0
IsGreeted c = (c.status ≡ 200) × (c.body ≡ "hi" ∷ [])

greeting-Gives : Gives HasNoBody (Leaves IsGreeted) greeting
unfolding write_header write yuna.Http.Conn.write yuna.Http.Conn.body_allowed
    yuna.Http.Conn.write_header yuna.Http.Conn.is_informational yuna.Middleware.ResponseWriter.write
    yuna.Middleware.ResponseWriter.write_header
greeting-Gives r w i u = ground (arith, i, u)

serve_http_keeps_response_example :
    Leaves IsGreeted (serve_http packages guarded "u-1" greeting request world)
serve_http_keeps_response_example =
    serve_http_keeps_response IsGreeted HasNoBody packages guarded "u-1" greeting request world
      packages-RunsInOrder (body-IsCarried packages)
      (packages-LetsThrough HasNoBody (Leaves IsGreeted)) guarded-Answers greeting-Gives refl refl
