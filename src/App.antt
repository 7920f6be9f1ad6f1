-- ===== src/App.antt =====
-- yuna.go: New and ServeHTTP of the main server, and what Trace and RequestLogger keep from one
-- request to the next. chi's router is a parameter: how it runs its middlewares, and what it does
-- with a request after them.
pub mod Order
pub mod Kept
pub mod Through
pub mod Crash
pub mod Refused
pub mod Denied
pub mod Answered
pub mod Named
pub mod Routes
pub mod Servers
pub mod Built
mod Tests
use yuna.Prelude.{ℕ, String, Bool, true, false, Option, none, some, List, [], ◌∷◌}
use yuna.Log.Logger.{Logger, LogState}
use yuna.Middleware.ResponseWriter.{Interfaces}
use yuna.Middleware.Trace.{OtelOption, trace}
use yuna.Middleware.Metrics.{instrument_handler}
use yuna.Middleware.RequestLog.{request_logger}
use yuna.World.{Any, Context, Request, World, conn_of, Outcome, Handler, Middleware}
use yuna.Auth.{HttpAuthenticator, authenticate}
use yuna.Recover.{recovery}
use yuna.Health.{HealthcheckHandler, new_healthcheck_handler}
use yuna.Options.{Config, BaseOption, new_config}

-- The variables that the middlewares of a server capture: Trace's `opts` and RequestLogger's
-- `logger`.
pub record Captured : Type 0 where
  pub opts : List OtelOption
  pub request_log : Logger

-- The struct Yuna, less net/http's servers and the router.
pub record Yuna : Type 0 where
  pub config : Config
  pub health_handler : HealthcheckHandler
  pub logger : Logger
  pub captured : Captured

-- What the code takes from other packages: json.Marshal, how a map of texts is kept as an attribute,
-- otelhttp.NewHandler, the tracer's start of a span, what the server's writer implements, chi's route
-- pattern, and chi's chain of middlewares around a handler.
pub record Packages : Type 0 where
  pub marshal : Any → Option String
  pub info : List (String × String) → String
  pub otel : List OtelOption → Handler → Handler
  pub start : Context → Context
  pub has : Interfaces
  pub pattern : Request → World → String
  pub chain : List Middleware → Handler → Handler

module _ (p : Packages) where
  unfoldable pub new_yuna : LogState → List BaseOption → Yuna
  unfolding new_config new_healthcheck_handler
  new_yuna s opts =
      let conf = new_config p.marshal s opts in
      record {
        config = conf;
        health_handler = new_healthcheck_handler;
        logger = conf.logger;
        captured = record { opts = []; request_log = conf.logger };
      }

  -- The middlewares at one request, whose new id would be `uuid`.
  abbrev pub trace_middleware : Yuna → String → Middleware
  trace_middleware z uuid next r w =
      (trace p.otel z.config.trace_provider next uuid r w z.captured.opts).0

  abbrev pub metrics_middleware : Middleware
  metrics_middleware next r w = instrument_handler p.has p.pattern next r (conn_of w.writer) w

  abbrev pub log_middleware : Yuna → Middleware
  log_middleware z next r w = (request_logger p.info next r w z.captured.request_log).0

  abbrev pub auth_middleware : Option HttpAuthenticator → List Middleware
  auth_middleware none = []
  auth_middleware (some auth) = authenticate p.marshal p.start auth ∷ []

  -- What New gives to the router's Use, in its order.
  unfoldable pub default_middlewares : Yuna → String → List Middleware
  unfolding recovery trace instrument_handler request_logger authenticate
  default_middlewares z uuid =
      recovery p.marshal
      ∷ trace_middleware z uuid
      ∷ metrics_middleware
      ∷ log_middleware z
      ∷ auth_middleware z.config.authenticator

  -- `route` is what the router does behind the middlewares: it calls the handler of the route, or
  -- the configured one for a path or a method without a route.
  unfoldable pub serve_http : Yuna → String → Handler → Handler
  unfolding default_middlewares
  serve_http z uuid route = p.chain (default_middlewares z uuid) route
