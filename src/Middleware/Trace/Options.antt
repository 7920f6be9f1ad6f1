-- ===== src/Middleware/Trace/Options.antt =====
-- The options that the middleware keeps.
use yuna.Prelude.{◌+◌, ◌*◌, String, List, [], ◌∷◌, ◌≡◌, arith, length, length-append}
use yuna.Otel.{Provider, or_global}
use yuna.World.{Request, World, Handler}
use yuna.Middleware.Trace.{
  OtelOption, trace, with_tracer_provider, with_span_name_formatter, with_noop_meter_provider,
}

-- The options after one request after another: each with its request id, itself and its world.
abbrev pub options_after :
    (List OtelOption → Handler → Handler)
    → Provider
    → Handler
    → List (String × Request × World)
    → List OtelOption
    → List OtelOption
options_after otel tp next [] opts = opts
options_after otel tp next ((uuid, r, w) ∷ rs) opts =
    options_after otel tp next rs (trace otel tp next uuid r w opts).1

-- After any requests the middleware keeps as many options as it began with, and three more for each
-- of the requests.
pub trace_options_grow :
    (otel : List OtelOption → Handler → Handler) (tp : Provider) (next : Handler)
    (rs : List (String × Request × World)) (opts : List OtelOption)
    → length (options_after otel tp next rs opts) ≡ length opts + 3 * length rs
unfolding trace
trace_options_grow otel tp next [] opts = ground arith
trace_options_grow otel tp next ((uuid, r, w) ∷ rs) opts = ground (
  arith,
  trace_options_grow otel tp next rs (trace otel tp next uuid r w opts).1,
  length-append opts (
      with_tracer_provider (or_global tp)
      ∷ with_span_name_formatter
      ∷ with_noop_meter_provider
      ∷ []),
)
