-- ===== src/Middleware/Metrics.antt =====
-- internal/middleware/metrics.go: the gauge of requests in flight, and the latency histogram.
-- It uses the names of World, which stands above Middleware's writer.
pub mod Balance
mod Tests
use yuna.Prelude.{
  ℕ, String, Bool, true, false, Option, List, [], ◌∷◌, ◌==◌, pos, negsuc, if◌then◌else◌,
}
use yuna.Http.Conn.{Conn}
use yuna.Middleware.ResponseWriter.{Interfaces, new_response_writer, status}
use yuna.Otel.{
  Provider, or_global, Instrument, Made, make_all, float64_histogram, int64_up_down_counter,
}
use yuna.World.{
  Request, World, Writer, plain, recording, conn_of, Outcome, returned, panicked, Handler, emit,
  in_flight, latency,
}

-- The instruments, in the order in which they are made.
unfoldable pub server_instruments : List ℕ → List Instrument
server_instruments buckets =
    record {
      kind = float64_histogram;
      name = "http.server.request.duration";
      description = "Duration in seconds for the server to process a request";
      unit = "s";
      buckets = buckets;
    }
    ∷ record {
      kind = int64_up_down_counter;
      name = "http.server.requests.in_flight";
      description = "Number of in-flight requests";
      unit = "";
      buckets = [];
    }
    ∷ []

-- What InstrumentHandler makes before its first request, or the panic; `meter` makes an instrument
-- with the meter of a provider.
unfoldable pub make_instruments : (Provider → Instrument → Option String) → Provider → List ℕ → Made
unfolding or_global make_all server_instruments
make_instruments meter tp buckets = make_all (meter (or_global tp)) (server_instruments buckets)

-- The route, with the safeguard for an unknown one.
unfoldable pub path_of : String → String
path_of pattern = if pattern == "" then "undefined" else pattern

-- `rw.statusCode`: a handler leaves the writer that it is given in place.
abbrev pub status_of : Writer → ℕ
status_of (plain c) = c.status
status_of (recording rw) = status rw

-- The writer that the middleware was given, as its caller sees it again.
abbrev pub give_back : World → World
give_back w = record w { writer = plain (conn_of w.writer) }

-- `defer inFlightRequests.Add(r.Context(), -1)`
unfoldable pub leave : Outcome → Outcome
unfolding emit
leave (returned w) = returned (give_back (emit (in_flight (negsuc 0)) w))
leave (panicked p w) = panicked p (give_back (emit (in_flight (negsuc 0)) w))

-- `has` is what the server's writer implements, and `pattern` is the route pattern of chi's context,
-- empty if there is none. The measured time is left out.
module _ (has : Interfaces) (pattern : Request → World → String) where
  -- What stands after next.ServeHTTP, which a panic skips.
  unfoldable pub record_latency : Request → Outcome → Outcome
  unfolding path_of emit status
  record_latency r (returned w) =
      returned (emit (latency (status_of w.writer) r.method (path_of (pattern r w))) w)
  record_latency r (panicked p w) = panicked p w

  -- The world in which the handler starts.
  abbrev pub entered : Conn → World → World
  entered c w = record (emit (in_flight (pos 1)) w) {
    writer = recording (new_response_writer has c);
  }

  -- `c` is the writer that the middleware is given.
  unfoldable pub instrument_handler : Handler → Request → Conn → World → Outcome
  unfolding record_latency leave emit new_response_writer
  instrument_handler next r c w = leave (record_latency r (next r (entered c w)))
