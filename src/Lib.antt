-- ===== src/Lib.antt =====
-- Yuna, a small framework for HTTP services in Go over net/http and chi.
--
-- A request comes to the main server's router and goes through the middleware that New puts there,
-- recovery, trace, metrics, request log and, if there is an authenticator, authentication, then
-- through the route's own middleware to the application's handler, whose responder writes the
-- response. A second server answers probes and operations. What each file models:
--
--   Problem           problem.go: ProblemDetails, MarshalJSON (marshal_json), ServeHTTP (serve),
--                     the constructors from BadRequest to GatewayTimeout (Problem/Responses) and
--                     Violations.Add (Problem/Violations); Problem/Unordered takes its map of
--                     extensions as a quotient
--   Health            health.go: the probes live and ready; readyStatus is Health/Pool, the checks
--                     that run at once (Pool/Hung: one that never returns), and then
--                     respond_with, the fold over their results
--   Auth              auth.go: Authenticate, Authenticated, RequireRole, the context's Principal
--   App               yuna.go: New (App/Built, with App/Servers) and ServeHTTP, which runs its
--                     default_middlewares, Close and RegisterOnShutdown; the routing methods are
--                     App/Routes; App/Named is a problem sent behind the trace middleware
--   Router            router.go: Mux, over an interface of chi's routers (Chi); Router/Table has what
--                     chi documents of them, by their trees of routes (Router/Trees), and
--                     Router/Lists a router that does it
--   Server            yuna.go: Start and StartTLS with their two servers (Server/Steps), Shutdown
--                     (Server/Shutdown), and all of them with Close as one interleaving
--                     (Server/Lifecycle)
--   Operations        yuna.go: initOpsServer (Operations/Endpoints), the bodies of its endpoints, and
--                     RegisterHealthCheck; Operations/Probe and Operations/Reach carry
--                     the probe back to registration and the log level on to requests
--   Client            client.go: the hooks that NewClient sets, NewClient and DefaultClient
--                     (Client/Default); internal/metrics/client.go (Client/Instruments)
--   Otel              the instruments and providers of metrics.go, trace.go and the client
--   Handler           handler.go: Handler, wrap
--   Recover           recover.go: recovery
--   Mime              mime.go: Consumes, normalizeMediaTypes, matchesAny, and its constants
--                     (Mime/Names)
--   Response          response.go: ResponseBuilder
--   Param             param.go, and QueryParam and PathParam of request.go
--   Request           the rest of request.go: Decode, Bind and the accessors
--   Options           options.go: config, its options and newConfig; notFound and methodNotAllowed
--                     of yuna.go
--   Middleware        internal/middleware: http.go (ResponseWriter), trace.go (Trace), metrics.go
--                     (Metrics) and logging.go (RequestLog; RequestLog/Raced for requests that
--                     are served at once)
--   Log               log: level.go (Level), attr.go (Attr, and Stack for parseStack), log.go and
--                     option.go (Logger)
--   Example           examples/restapi/main.go: its handlers, middlewares and routes, and main
--                     (Example/Main)
--   World             internal/context.go, and what a handler can see and change
--   Http, Text        what the code uses of net/http, net/textproto, strings and sort; headers.go
--                     is Http/Names
--   Prelude, Sample   shared names and lemmas; concrete values for the tests
--
-- A handler is a function from a request and a world to an outcome: the world after it returned, or
-- a panic with the world that it left. The world holds the writer, the request's header, the level
-- cells and the global logger of the log package, and the events left with the logger, the tracer
-- and the meter, the oldest first. A middleware is a function on handlers. Variables that a Go closure
-- captures and assigns to are passed from one request to the next. A pointer that may be nil is an
-- Option. Go maps are association lists: where the code ranges over one, the list's order stands for
-- the order of that run.
--
-- Third-party code is a parameter: json.Marshal (marshal, with none for an error), otel's spans
-- (start) and meters (meter), otelhttp (otel), chi's routers (Chi), its chain of middlewares
-- (chain) and its matching (pattern, routes, url_param), mime.ParseMediaType (parse, media_type),
-- the parsers of strconv (atoi) and uuid, the accessors and decoders of a request (NetHttp), and
-- the application's handlers, checkers, authenticators and hooks. What the code relies on stands
-- in a hypothesis where a theorem needs it: Documented of chi's routes, RunsInOrder of its chain,
-- LeavesGauge and LetsThrough of otelhttp. Documented says nothing of calls at which chi panics, or
-- with which one route replaces another; a theorem about routes has as a hypothesis, where the
-- patterns are not the source's own, that the router takes them (takes_routes, has_paths). resty is the order in which it calls the hooks of one
-- exchange, which is data (Client/Exchange). The theorems hold for all of these; where a theorem
-- needs a value to marshal, that is a hypothesis. Of net/http's response the model has the header,
-- the status lines, and the writes to the body; the client's connection takes every write, and
-- status codes are from 100 to 999, outside of which net/http panics. Letters have upper and lower
-- case, and space is space, in ASCII only.
-- Sizes are numbers modulo 2^64 where the code counts in uint64. No definition takes fuel: loops
-- are recursion on lists, and the concurrent parts, the health checks, Start, Shutdown and Close,
-- and the accesses of requests to the captured logger, are step relations. Each access to a shared
-- variable is one step: reads and writes are taken as atomic.
--
-- Not modelled: Routes, Middlewares, Match and Find of yuna.go, which return what chi answers; how
-- slog writes a record, and the runtime's own stack; clocks; a race of requests on the options that
-- the trace middleware captures, which is that of the logger; the attributes of an error's log
-- record; resty's retries.
pub mod Prelude
pub mod Text
pub mod Http
pub mod Log
pub mod Middleware
pub mod World
pub mod Otel
pub mod App
pub mod Router
pub mod Problem
pub mod Health
pub mod Handler
pub mod Recover
pub mod Auth
pub mod Client
pub mod Mime
pub mod Options
pub mod Param
pub mod Request
pub mod Response
pub mod Server
pub mod Operations
pub mod Sample
pub mod Example
