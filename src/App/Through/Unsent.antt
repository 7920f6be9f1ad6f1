-- ===== src/App/Through/Unsent.antt =====
-- What leaves a response unsent: changes of the header, and so the trace middleware; what the trace
-- middleware leaves of the request's header.
use yuna.Prelude.{arith, ◌≡◌, String, Bool, true, false, ◌==◌, if◌then◌else◌}
use yuna.Http.Header
use yuna.Http.Header.{Header}
use yuna.World.{Request, World, Writer, plain, recording, SpanContext, map_header, conn_of}
use yuna.World.Sent.{IsUnsent}
use yuna.Middleware.Trace.{
  annotated, set_header, ensure_request_id, echo_correlation_id, set_trace_headers,
}

pub map_header-IsUnsent :
    (f : Header → Header) (w : World) → IsUnsent w.writer → IsUnsent (map_header f w).writer
unfolding map_header
map_header-IsUnsent f w u = unsent w.writer u
  where
    unsent : (x : Writer) → IsUnsent x → IsUnsent (map_header f (record w { writer = x })).writer
    unsent (plain c) u = u
    unsent (recording r) u = u

if-IsUnsent :
    (b : Bool) (v w : World)
    → IsUnsent v.writer
    → IsUnsent w.writer
    → IsUnsent (if b then v else w).writer
if-IsUnsent true v w h k = h
if-IsUnsent false v w h k = k

ensure_request_id-IsUnsent :
    (uuid : String) (w : World) → IsUnsent w.writer → IsUnsent (ensure_request_id uuid w).writer
unfolding ensure_request_id
ensure_request_id-IsUnsent uuid w u = if-IsUnsent _ _ w u u

echo_correlation_id-IsUnsent :
    (w : World) → IsUnsent w.writer → IsUnsent (echo_correlation_id w).writer
unfolding echo_correlation_id
echo_correlation_id-IsUnsent w u =
    let id = Header.get "X-Correlation-ID" w.request_header in
    if-IsUnsent (id == "") w (set_header "X-Correlation-ID" id w) u
      (map_header-IsUnsent (Header.set "X-Correlation-ID" id) w u)

set_trace_headers-IsUnsent :
    (span : SpanContext) (w : World)
    → IsUnsent w.writer
    → IsUnsent (set_trace_headers span w).writer
unfolding set_trace_headers
set_trace_headers-IsUnsent span w u =
    let v = set_header "X-Trace-Id" span.trace_id w in
    map_header-IsUnsent (Header.set "X-Sampled" (if span.sampled then "1" else "0"))
      (if span.has_trace_id then v else w)
      (if-IsUnsent span.has_trace_id v w
        (map_header-IsUnsent (Header.set "X-Trace-Id" span.trace_id) w u) u)

pub annotated-IsUnsent :
    (uuid : String) (r : Request) (w : World)
    → IsUnsent w.writer
    → IsUnsent (annotated uuid r w).writer
unfolding annotated
annotated-IsUnsent uuid r w u =
    let v = ensure_request_id uuid w in
    let id = Header.get "X-Request-ID" v.request_header in
    let x = set_header "X-Request-ID" id v in
    set_trace_headers-IsUnsent r.ctx.span (echo_correlation_id x) (
      echo_correlation_id-IsUnsent x (
        map_header-IsUnsent (Header.set "X-Request-ID" id) v (ensure_request_id-IsUnsent uuid w u)))

-- What holds of a request's header and still does when it is given an id.
abbrev pub HoldsWithId : (Header → Type 0) → Type 0
HoldsWithId H = (id : String) (h : Header) → H h → H (Header.set "X-Request-ID" id h)

module _ (H : Header → Type 0) where
  if-request_header :
      (b : Bool) (v w : World)
      → H v.request_header
      → H w.request_header
      → H (if b then v else w).request_header
  if-request_header true v w h k = h
  if-request_header false v w h k = k

  pub annotated-request_header :
      (uuid : String) (r : Request) (w : World)
      → HoldsWithId H
      → H w.request_header
      → H (annotated uuid r w).request_header
  unfolding annotated ensure_request_id echo_correlation_id set_trace_headers map_header
  annotated-request_header uuid r w k h =
      let v = ensure_request_id uuid w in
      let hv =
        if-request_header (Header.get "X-Request-ID" w.request_header == "") _ w
          (k uuid w.request_header h) h in
      let x = set_header "X-Request-ID" (Header.get "X-Request-ID" v.request_header) v in
      let hx = if-request_header (Header.get "X-Correlation-ID" x.request_header == "") x _ hv hv in
      if-request_header r.ctx.span.has_trace_id _ (echo_correlation_id x) hx hx

pub annotated-body :
    (uuid : String) (r : Request) (w : World)
    → (conn_of (annotated uuid r w).writer).body ≡ (conn_of w.writer).body
unfolding annotated ensure_request_id echo_correlation_id set_trace_headers map_header
annotated-body uuid r w = ground arith
