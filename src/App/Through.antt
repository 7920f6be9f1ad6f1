-- ===== src/App/Through.antt =====
-- What gets through the middlewares of a server, from a route to recovery: a property of outcomes
-- that the ends of a span and of a request keep.
pub mod Unsent
use yuna.Prelude.{
  ℕ, String, Bool, true, false, Option, none, some, List, [], ◌∷◌, ◌++◌, ◌==◌, ◌≡◌, refl, sym, ap,
  ◌∙◌, arith, pos, All, if◌then◌else◌,
}
use mathlib.Core.Path.{subst}
use yuna.Http.Header
use yuna.Http.Header.{Header}
use yuna.Http.Conn.{is_informational}
use yuna.World.{
  Any, Principal, SpanContext, Context, Request, World, Writer, plain, recording, conn_of, Outcome,
  returned, panicked, Panic, Handler, Middleware, world_of, map_header, write_header, write, encode,
  log_error, emit, Event, span_started, with_value, context_key_logger, a_logger,
}
use yuna.World.Sent.{IsUnsent}
use yuna.Problem.{ProblemDetails, serve, fill, marshal_json, problem_headers}
use yuna.Problem.Responses.{internal_server_error}
use yuna.Problem.Serve.{fill_fields}
use yuna.Otel.{or_global}
use yuna.Auth.{HttpAuthenticator, AuthResult, after_auth, principal, authenticate, end_span}
use yuna.Recover.{deferred, recovery}
use yuna.Handler.Nesting.{nest}
use yuna.Middleware.ResponseWriter.{new_response_writer}
use yuna.Middleware.Trace.{
  OtelOption, with_tracer_provider, with_span_name_formatter, with_noop_meter_provider, annotate,
  annotated, trace, set_header, ensure_request_id, echo_correlation_id, set_trace_headers,
}
use yuna.Middleware.RequestLog.{request_logger}
use yuna.Middleware.Metrics.{entered, leave, record_latency, instrument_handler}
use yuna.App.Through.Unsent.{
  annotated-IsUnsent, HoldsWithId, annotated-request_header, annotated-body,
}
use yuna.App.{
  Yuna, Packages, trace_middleware, metrics_middleware, log_middleware, auth_middleware,
  default_middlewares, serve_http,
}

pub conn_of-IsUnsent : (x : Writer) → IsUnsent x → IsUnsent (plain (conn_of x))
conn_of-IsUnsent (plain c) u = u
conn_of-IsUnsent (recording r) (u, v) = v

-- An authenticator that answers with a principal: no error, and not nil.
abbrev pub Answers : Option HttpAuthenticator → Type 0
Answers none = Unit
Answers (some auth) = (r : Request) (w : World) → (q : Principal) × (auth r w ≡ principal (some q))

-- What holds of the world of a request and still does when the middlewares before its route have
-- changed it: the headers of the trace middleware, the writer of the metrics, and events.
pub record IsCarried (P : World → Type 0) (p : Packages) : Type 0 where
  pub by_trace : (uuid : String) (r : Request) (w : World) → P w → P (annotated uuid r w)
  pub by_metrics : (w : World) → P w → P (entered p.has p.pattern (conn_of w.writer) w)
  pub by_event : (e : Event) (w : World) → P w → P (emit e w)

pub header-IsCarried :
    (H : Header → Type 0) (p : Packages) → HoldsWithId H → IsCarried (λ w. H w.request_header) p
unfolding emit
header-IsCarried H p k = record {
  by_trace = λ uuid r w h. annotated-request_header H uuid r w k h;
  by_metrics = λ w h. h;
  by_event = λ e w h. h;
}

-- Nothing has been written to the body.
abbrev pub HasNoBody : World → Type 0
HasNoBody w = (conn_of w.writer).body ≡ []

pub body-IsCarried : (p : Packages) → IsCarried HasNoBody p
unfolding emit new_response_writer
body-IsCarried p = record {
  by_trace = λ uuid r w h. annotated-body uuid r w ∙ h;
  by_metrics = λ w h. h;
  by_event = λ e w h. h;
}

module _ (P : World → Type 0) (Q : Outcome → Type 0) where
  -- What a handler comes to in such a world, wherever nothing has been sent.
  abbrev pub Gives : Handler → Type 0
  Gives h = (r : Request) (w : World) → P w → IsUnsent w.writer → Q (h r w)

  abbrev pub GivesAround : Middleware → Type 0
  GivesAround m = (next : Handler) → Gives next → Gives (m next)

  nest-Gives :
      (ms : List Middleware) (h : Handler) → All GivesAround ms → Gives h → Gives (nest ms h)
  nest-Gives [] h a k = k
  nest-Gives (m ∷ ms) h a k = a.0 (nest ms h) (nest-Gives ms h a.1 k)

  module _ (p : Packages) where
    pub record IsStable : Type 0 where
      pub span : (o : Outcome) → Q o → Q (end_span o)
      pub latency :
          (r : Request) (o : Outcome) → Q o → Q (leave (record_latency p.has p.pattern r o))

    -- What the code takes of otelhttp: it lets the outcome of the handler that it wraps through, and
    -- sends nothing by itself.
    abbrev pub LetsThrough : Type 0
    LetsThrough = (opts : List OtelOption) (h : Handler) → Gives h → Gives (p.otel opts h)

    metrics-GivesAround : IsStable → IsCarried P p → GivesAround (metrics_middleware p)
    unfolding instrument_handler new_response_writer
    metrics-GivesAround t j next k r w i u = t.latency r _ (
        k r (entered p.has p.pattern (conn_of w.writer) w) (j.by_metrics w i)
          (refl, conn_of-IsUnsent w.writer u))

    log-GivesAround : (z : Yuna) → GivesAround (log_middleware p z)
    unfolding request_logger
    log-GivesAround z next k r w i u = k _ w i u

    trace-GivesAround :
        IsCarried P p
        → LetsThrough
        → (z : Yuna) (uuid : String) → GivesAround (trace_middleware p z uuid)
    unfolding trace annotate
    trace-GivesAround j b z uuid next k = b _ _ (λ r w i u.
        k r (annotated uuid r w) (j.by_trace uuid r w i) (annotated-IsUnsent uuid r w u))

    after_auth-Gives :
        (next : Handler) (r : Request) (a : AuthResult) (q : Principal) (w : World)
        → Gives next
        → a ≡ principal (some q)
        → P w
        → IsUnsent w.writer
        → IsCarried P p
        → Q (after_auth p.marshal p.start next r a w)
    unfolding emit
    after_auth-Gives next r a q w k e i u j =
        subst (λ x. Q (after_auth p.marshal p.start next r x w)) (sym e)
          (k _ _ (j.by_event _ w i) u)

    auth-GivesAround :
        IsStable
        → IsCarried P p
        → (o : Option HttpAuthenticator) → Answers o
        → All GivesAround (auth_middleware p o)
    unfolding authenticate emit
    auth-GivesAround t j none a = tt
    auth-GivesAround t j (some auth) a = (
      λ next k r w i u. t.span _ (
          after_auth-Gives next (record r { ctx = p.start r.ctx }) _ (a _ _).0 _ k (a _ _).1
            (j.by_event (span_started "Authenticate") w i) u j),
      tt,
    )

    -- The middlewares of the chain between recovery and authentication.
    abbrev pub outer : Yuna → String → List Middleware
    outer z uuid = trace_middleware p z uuid ∷ metrics_middleware p ∷ log_middleware p z ∷ []

    pub outer-Gives :
        (z : Yuna) (uuid : String) (h : Handler)
        → IsStable
        → IsCarried P p
        → LetsThrough
        → Gives h
        → Gives (nest (outer z uuid) h)
    outer-Gives z uuid h t j b k =
        nest-Gives (outer z uuid) h
          (trace-GivesAround j b z uuid, (metrics-GivesAround t j, (log-GivesAround z, tt))) k

    pub inner-Gives :
        (z : Yuna) (uuid : String) (route : Handler)
        → IsStable
        → IsCarried P p
        → LetsThrough
        → Answers z.config.authenticator
        → Gives route
        → Gives (nest (outer z uuid) (nest (auth_middleware p z.config.authenticator) route))
    inner-Gives z uuid route t j b a k = outer-Gives z uuid _ t j b (
        nest-Gives (auth_middleware p z.config.authenticator) route
          (auth-GivesAround t j z.config.authenticator a) k)
