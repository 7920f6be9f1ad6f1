-- ===== src/App/Kept/Gauge.antt =====
-- What leaves the gauge of requests in flight where it stands.
use yuna.Prelude.{
  String, Option, none, some, ◌≡◌, refl, ap, arith, Bool, true, false, if◌then◌else◌,
}
use yuna.World.{
  Any, Context, Request, World, Event, emit, log_error, encode, write, write_header, map_header,
}
use yuna.Problem.{ProblemDetails, serve, fill, marshal_json, problem_headers}
use yuna.Middleware.Trace.{annotated, ensure_request_id, echo_correlation_id, set_trace_headers}
use yuna.Middleware.Metrics.Balance
use yuna.Middleware.Metrics.Balance.{ups, downs, ups-snoc, downs-snoc, instrument_handler-Level}

pub Level-trans :
    (w w' w'' : World) → Balance.Level w w' → Balance.Level w' w'' → Balance.Level w w''
Level-trans w w' w'' h k = omega (arith, h, k)

-- The events are all that counts.
pub Level-same : (w v w' : World) → v.events ≡ w.events → Balance.Level v w' → Balance.Level w w'
Level-same w v w' e h = ground (arith, h, ap ups e, ap downs e)

pub emit-Level :
    (e : Event) (w : World) → Balance.up e ≡ 0 → Balance.down e ≡ 0 → Balance.Level w (emit e w)
unfolding emit
emit-Level e w u d = ground (arith, ups-snoc w.events e, downs-snoc w.events e)

pub log_error-Level :
    (ctx : Context) (msg : String) (w : World) → Balance.Level w (log_error ctx msg w)
unfolding log_error
log_error-Level ctx msg w = emit-Level _ w refl refl

pub log_if-Level :
    (b : Bool) (ctx : Context) (msg : String) (w v : World)
    → v.events ≡ w.events
    → Balance.Level w (if b then log_error ctx msg v else v)
log_if-Level true ctx msg w v e = Level-same w v (log_error ctx msg v) e (log_error-Level ctx msg v)
log_if-Level false ctx msg w v e = Level-same w v v e refl

module _ (marshal : Any → Option String) where
  encode-events : (json : Option String) (w : World) → (encode json w).0.events ≡ w.events
  unfolding encode write
  encode-events none w = refl
  encode-events (some json) w = ground (arith, w.writer)

  pub serve-Level :
      (q : ProblemDetails) (r : Request) (w : World) → Balance.Level w (serve marshal q r w).1
  unfolding serve write_header map_header
  serve-Level q r w =
      log_if-Level
        (encode (marshal_json marshal (fill w.request_header r q)) (
          write_header (fill w.request_header r q).status_code
            (map_header (problem_headers (fill w.request_header r q).headers) w))).1
        r.ctx "Error writing problem/error response to client" w
        (encode (marshal_json marshal (fill w.request_header r q)) (
          write_header (fill w.request_header r q).status_code
            (map_header (problem_headers (fill w.request_header r q).headers) w))).0
        (encode-events (marshal_json marshal (fill w.request_header r q)) (
          write_header (fill w.request_header r q).status_code
            (map_header (problem_headers (fill w.request_header r q).headers) w)))

pub annotated-events :
    (uuid : String) (r : Request) (w : World) → (annotated uuid r w).events ≡ w.events
unfolding annotated ensure_request_id echo_correlation_id set_trace_headers map_header
annotated-events uuid r w = ground arith
