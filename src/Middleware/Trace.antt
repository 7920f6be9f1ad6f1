-- ===== src/Middleware/Trace.antt =====
-- internal/middleware/trace.go: the span of a request, and the headers that name it. otelhttp is a
-- parameter. The variable `opts` belongs to the middleware, not to the request: it is passed from one
-- request to the next.
pub mod Headers
pub mod Options
mod Tests
use Prim.Native.String
use yuna.Prelude.{
  ℕ, String, Bool, true, false, Option, none, some, List, [], ◌∷◌, ◌++◌, ◌==◌, if◌then◌else◌,
}
use yuna.Otel.{Provider, or_global}
use yuna.Http.Header
use yuna.World.{Request, World, SpanContext, Outcome, Handler, map_header}

-- otelhttp's options: those that the application gives, and the three that the middleware adds.
pub data OtelOption : Type 0 where
  given : ℕ → OtelOption
  with_tracer_provider : Provider → OtelOption
  with_span_name_formatter with_noop_meter_provider : OtelOption

-- `routes` is the pattern that chi matches a method and a path to, empty if there is none.
unfoldable pub span_name : Option (String → String → Option String) → Request → String
span_name none r = String.◌++◌ r.method (String.◌++◌ " " r.path)
span_name (some routes) r =
    String.◌++◌ r.method (String.◌++◌ " " (matched (routes r.method r.path)))
  where
    matched : Option String → String
    matched none = r.path
    matched (some pat) = if pat == "" then r.path else pat

-- `uuid` is the text of uuid.New().
unfoldable pub ensure_request_id : String → World → World
ensure_request_id uuid w =
    if Header.get "X-Request-ID" w.request_header == ""
    then record w { request_header = Header.set "X-Request-ID" uuid w.request_header }
    else w

abbrev pub set_header : String → String → World → World
set_header key value w = map_header (Header.set key value) w

unfoldable pub echo_correlation_id : World → World
unfolding map_header
echo_correlation_id w =
    let id = Header.get "X-Correlation-ID" w.request_header in
    if id == "" then w else set_header "X-Correlation-ID" id w

unfoldable pub set_trace_headers : SpanContext → World → World
unfolding map_header
set_trace_headers span w =
    let w = if span.has_trace_id then set_header "X-Trace-Id" span.trace_id w else w in
    set_header "X-Sampled" (if span.sampled then "1" else "0") w

-- The inner function `fn`: the world in which it calls the handler, and the call.
unfoldable pub annotated : String → Request → World → World
unfolding ensure_request_id echo_correlation_id set_trace_headers map_header
annotated uuid r w =
    let w = ensure_request_id uuid w in
    let w = set_header "X-Request-ID" (Header.get "X-Request-ID" w.request_header) w in
    set_trace_headers r.ctx.span (echo_correlation_id w)

unfoldable pub annotate : String → Handler → Handler
unfolding annotated
annotate uuid next r w = next r (annotated uuid r w)

-- `otel` is what otelhttp.NewHandler makes of a handler and its options.
unfoldable pub trace :
    (List OtelOption → Handler → Handler)
    → Provider
    → Handler
    → String
    → Request
    → World
    → List OtelOption
    → Outcome × List OtelOption
unfolding annotate
trace otel tp next uuid r w opts =
    let opts =
      opts
      ++ with_tracer_provider (or_global tp)
        ∷ with_span_name_formatter
        ∷ with_noop_meter_provider
        ∷ [] in
    (otel opts (annotate uuid next) r w, opts)
