-- ===== src/Middleware/Trace/Tests.antt =====
-- The trace middleware on one request and on two.
use yuna.Otel.{otel_global}
use yuna.Prelude.{String, not, List, [], ◌∷◌, ◌==◌, ◌≡◌, if◌then◌else◌, ◌+◌, ◌*◌, length}
use yuna.Http.Header
use yuna.Http.Header.{Header, values_of}
use yuna.World.{Request, World, Handler}
use yuna.Middleware.Trace.{annotated, annotate, OtelOption}
use yuna.Sample.{request, world, nothing}
use yuna.Middleware.Trace.Headers.{annotate_names_request, request_id, response_header}
use yuna.Middleware.Trace.Options.{trace_options_grow, options_after}

annotate_names_request_run :
    let w' = annotated "u-1" request world in
    let id = request_id "u-1" world.request_header in
    let correlation = Header.get "X-Correlation-ID" world.request_header in
    let before = response_header world in
    let after = response_header w' in
    (annotate "u-1" nothing request world ≡ nothing request w')
    × (values_of "X-Request-ID" after ≡ id ∷ [])
    × (values_of "X-Correlation-ID" after ≡ (
        if not (correlation == "") then correlation ∷ [] else values_of "X-Correlation-ID" before))
    × (values_of "X-Trace-Id" after ≡ (
        if request.ctx.span.has_trace_id
        then request.ctx.span.trace_id ∷ []
        else values_of "X-Trace-Id" before))
    × (values_of "X-Sampled" after ≡ (if request.ctx.span.sampled then "1" else "0") ∷ [])
annotate_names_request_run = annotate_names_request "u-1" nothing request world

abbrev otel : List OtelOption → Handler → Handler
otel opts handler = handler

abbrev served : List (String × Request × World)
served = ("u-1", request, world) ∷ ("u-2", request, world) ∷ []

abbrev no_options : List OtelOption
no_options = []

trace_options_grow_run :
    length (options_after otel otel_global nothing served no_options)
    ≡ length no_options + 3 * length served
trace_options_grow_run = trace_options_grow otel otel_global nothing served no_options
