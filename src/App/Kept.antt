-- ===== src/App/Kept.antt =====
-- The whole chain of a server's middlewares: what it keeps whatever the route does.
pub mod Gauge
use yuna.Prelude.{
  String, Option, none, some, List, [], ◌∷◌, ◌++◌, ◌≡◌, refl, ap, arith, All, Bool, true, false,
  if◌then◌else◌,
}
use yuna.World.{
  Any, Context, Request, World, conn_of, Outcome, returned, panicked, Panic, abort_handler, Handler,
  Middleware, with_value, context_key_logger, a_logger, Event, span_failed, span_started,
  span_ended, span_principal, world_of, emit, log_error, encode, write, write_header, map_header,
}
use yuna.Problem.{ProblemDetails, serve, respond, fill, marshal_json, problem_headers}
use yuna.Problem.Responses.{internal_server_error}
use yuna.Otel.{or_global}
use yuna.Auth.{
  with_principal, HttpAuthenticator, AuthResult, principal, failed, raises, authenticate,
  after_auth, end_span,
}
use yuna.Recover.{recovery, deferred}
use yuna.Recover.Caught.{recovery_stops_panics}
use yuna.Handler.Nesting.{nest}
use yuna.Middleware.Trace.{
  OtelOption, with_tracer_provider, with_span_name_formatter, with_noop_meter_provider, annotate,
  annotated, trace, ensure_request_id, echo_correlation_id, set_trace_headers,
}
use yuna.Middleware.RequestLog.{request_logger, extend}
use yuna.Middleware.Metrics.{entered}
use yuna.Middleware.Metrics.Balance
use yuna.Middleware.Metrics.Balance.{ups, downs, ups-snoc, downs-snoc, instrument_handler-Level}
use yuna.App.Order.{RunsInOrder}
use yuna.App.Kept.Gauge.{
  Level-trans, Level-same, emit-Level, log_error-Level, serve-Level, annotated-events,
}
use yuna.App.{
  Yuna, Packages, trace_middleware, metrics_middleware, log_middleware, auth_middleware,
  default_middlewares, serve_http,
}

-- The gauge of requests in flight stands after the handler where it stood before, whether it
-- returned or panicked.
abbrev pub Keeps : Handler → Type 0
Keeps h = (r : Request) (w : World) → Balance.Level w (world_of (h r w))

abbrev pub KeepsAround : Middleware → Type 0
KeepsAround m = (next : Handler) → Keeps next → Keeps (m next)

nest-Keeps : (ms : List Middleware) (h : Handler) → All KeepsAround ms → Keeps h → Keeps (nest ms h)
nest-Keeps [] h a k = k
nest-Keeps (m ∷ ms) h a k = a.0 (nest ms h) (nest-Keeps ms h a.1 k)

module _ (marshal : Any → Option String) where
  deferred-Level :
      (r : Request) (w : World) (o : Outcome)
      → Balance.Level w (world_of o)
      → Balance.Level w (world_of (deferred marshal r o))
  unfolding deferred
  deferred-Level r w (returned w') h = h
  deferred-Level r w (panicked abort_handler w') h = h
  deferred-Level r w (panicked (Panic.other text) w') h =
      let v = log_error r.ctx "panic recovered" w' in
      let sent = (serve marshal (internal_server_error []) r v).1 in
      Level-trans w w' sent h (
        Level-trans w' v sent (log_error-Level r.ctx "panic recovered" w')
          (serve-Level marshal (internal_server_error []) r v))

  deferred-KeepsAround : KeepsAround (recovery marshal)
  unfolding recovery
  deferred-KeepsAround next k r w = deferred-Level r w (next r w) (k r w)

  -- Authentication, by what the authenticator answers.
  module _ (start : Context → Context) where
    after_auth-Level :
        (next : Handler) (r : Request) (a : AuthResult) (w : World)
        → Keeps next
        → Balance.Level w (world_of (after_auth marshal start next r a w))
    unfolding respond
    after_auth-Level next r (failed err) w k =
        let v = log_error r.ctx "Error authenticating request" w in
        let u = emit (span_failed err) v in
        let sent = (serve marshal (internal_server_error []) r u).1 in
        Level-trans w v sent (log_error-Level r.ctx "Error authenticating request" w) (
          Level-trans v u sent (emit-Level (span_failed err) v refl refl)
            (serve-Level marshal (internal_server_error []) r u))
    after_auth-Level next r (raises x) w k = refl
    after_auth-Level next r (principal none) w k = refl
    after_auth-Level next r (principal (some p)) w k =
        let v = emit (span_principal p.name p.subject_id p.anonymous) w in
        let r' = record r { ctx = with_principal r.ctx (some p) } in
        Level-trans w v (world_of (next r' v))
          (emit-Level (span_principal p.name p.subject_id p.anonymous) w refl refl) (k r' v)

    end_span-Level :
        (w : World) (o : Outcome)
        → Balance.Level w (world_of o)
        → Balance.Level w (world_of (end_span o))
    unfolding end_span
    end_span-Level w (returned w') h =
        Level-trans w w' (emit span_ended w') h (emit-Level span_ended w' refl refl)
    end_span-Level w (panicked p w') h =
        Level-trans w w' (emit span_ended w') h (emit-Level span_ended w' refl refl)

    authenticate-KeepsAround :
        (auth : HttpAuthenticator) → KeepsAround (authenticate marshal start auth)
    unfolding authenticate
    authenticate-KeepsAround auth next k r w =
        let r' = record r { ctx = start r.ctx } in
        let v = emit (span_started "Authenticate") w in
        let o = after_auth marshal start next r' (auth r' v) v in
        end_span-Level w o (
          Level-trans w v (world_of o) (emit-Level (span_started "Authenticate") w refl refl)
            (after_auth-Level next r' (auth r' v) v k))

annotate-Keeps : (uuid : String) → KeepsAround (annotate uuid)
unfolding annotate
annotate-Keeps uuid next k r w =
    Level-same w (annotated uuid r w) (world_of (next r (annotated uuid r w)))
      (annotated-events uuid r w) (k r (annotated uuid r w))

-- What the code takes of otelhttp: it leaves the gauge to the handlers that it wraps.
abbrev pub LeavesGauge : Packages → Type 0
LeavesGauge p = (opts : List OtelOption) (h : Handler) → Keeps h → Keeps (p.otel opts h)

module _ (p : Packages) where
  metrics-KeepsAround : KeepsAround (metrics_middleware p)
  metrics-KeepsAround next k r w =
      instrument_handler-Level p.has p.pattern next r (conn_of w.writer) w
        (k r (entered p.has p.pattern (conn_of w.writer) w))

  log-KeepsAround : (z : Yuna) → KeepsAround (log_middleware p z)
  unfolding request_logger
  log-KeepsAround z next k r w =
      k
        (record r {
          ctx =
              with_value context_key_logger
                (a_logger (some (extend p.info w.request_header r z.captured.request_log))) r.ctx;
        })
        w

  trace-KeepsAround :
      LeavesGauge p → (z : Yuna) (uuid : String) → KeepsAround (trace_middleware p z uuid)
  unfolding trace
  trace-KeepsAround b z uuid next k =
      b
        (z.captured.opts
          ++ with_tracer_provider (or_global z.config.trace_provider)
            ∷ with_span_name_formatter
            ∷ with_noop_meter_provider
            ∷ [])
        (annotate uuid next) (annotate-Keeps uuid next k)

  auth-KeepsAround : (o : Option HttpAuthenticator) → All KeepsAround (auth_middleware p o)
  auth-KeepsAround none = tt
  auth-KeepsAround (some auth) = (authenticate-KeepsAround p.marshal p.start auth, tt)

  -- Every request that the server takes up it also takes off its gauge again, whatever becomes of it:
  -- where chi runs the middlewares in order, and otelhttp and the route leave the gauge as they find
  -- it, so does ServeHTTP.
  pub serve_http-Level :
      (z : Yuna) (uuid : String) (route : Handler) (r : Request) (w : World)
      → RunsInOrder p
      → LeavesGauge p
      → Keeps route
      → Balance.Level w (world_of (serve_http p z uuid route r w))
  unfolding serve_http default_middlewares
  serve_http-Level z uuid route r w c b k = rw (c (default_middlewares p z uuid) route) (
      nest-Keeps (default_middlewares p z uuid) route
        (
          deferred-KeepsAround p.marshal,
          (
            trace-KeepsAround b z uuid,
            (metrics-KeepsAround, (log-KeepsAround z, auth-KeepsAround z.config.authenticator)),
          ),
        )
        k r w)

  -- Where chi runs the middlewares in order, ServeHTTP always comes back: no panic of the route, of
  -- the authenticator or of a middleware gets out of the server, whatever otelhttp does.
  pub serve_http_returns :
      (z : Yuna) (uuid : String) (route : Handler) (r : Request) (w : World)
      → RunsInOrder p
      → serve_http p z uuid route r w ≡ returned (world_of (serve_http p z uuid route r w))
  unfolding serve_http default_middlewares
  serve_http_returns z uuid route r w c = rw (c (default_middlewares p z uuid) route) (
      recovery_stops_panics p.marshal
        (trace_middleware p z uuid (
          metrics_middleware p
            (log_middleware p z (nest (auth_middleware p z.config.authenticator) route))))
        r w)
