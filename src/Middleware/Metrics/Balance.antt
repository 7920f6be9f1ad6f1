-- ===== src/Middleware/Metrics/Balance.antt =====
-- The gauge counts each request in and out.
use yuna.Prelude.{ℕ, suc, ◌+◌, String, List, [], ◌∷◌, ◌++◌, ◌≡◌, arith, pos, negsuc}
use yuna.Http.Conn.{Conn}
use yuna.Middleware.ResponseWriter.{Interfaces}
use yuna.World.{
  world_of, Request, World, Outcome, returned, panicked, Handler, Event, emit, in_flight, latency,
}
use yuna.Middleware.Metrics.{record_latency, leave, entered, instrument_handler, status_of, path_of}

-- What an event adds to the gauge, and takes from it.
abbrev pub up : Event → ℕ
up (in_flight (pos n)) = n
up _ = 0

abbrev pub down : Event → ℕ
down (in_flight (negsuc n)) = suc n
down _ = 0

abbrev pub ups : List Event → ℕ
ups [] = 0
ups (e ∷ es) = up e + ups es

abbrev pub downs : List Event → ℕ
downs [] = 0
downs (e ∷ es) = down e + downs es

-- The gauge stands in `w'` where it stood in `w`.
abbrev pub Level : World → World → Type 0
Level w w' = ups w'.events + downs w.events ≡ ups w.events + downs w'.events

pub ups-snoc : (es : List Event) (e : Event) → ups (es ++ e ∷ []) ≡ ups es + up e
ups-snoc [] e = ground arith
ups-snoc (d ∷ es) e = ground (arith, ups-snoc es e)

pub downs-snoc : (es : List Event) (e : Event) → downs (es ++ e ∷ []) ≡ downs es + down e
downs-snoc [] e = ground arith
downs-snoc (d ∷ es) e = ground (arith, downs-snoc es e)

leave-Level :
    (has : Interfaces) (pattern : Request → World → String) (r : Request) (c : Conn) (w : World)
    (o : Outcome)
    → Level (entered has pattern c w) (world_of o)
    → Level w (world_of (leave (record_latency has pattern r o)))
unfolding leave record_latency emit
leave-Level has pattern r c w (returned w') h = ground (
  arith,
  h,
  ups-snoc (w'.events ++ latency (status_of w'.writer) r.method (path_of (pattern r w')) ∷ [])
      (in_flight (negsuc 0)),
  downs-snoc (w'.events ++ latency (status_of w'.writer) r.method (path_of (pattern r w')) ∷ [])
      (in_flight (negsuc 0)),
  ups-snoc w'.events (latency (status_of w'.writer) r.method (path_of (pattern r w'))),
  downs-snoc w'.events (latency (status_of w'.writer) r.method (path_of (pattern r w'))),
  ups-snoc w.events (in_flight (pos 1)),
  downs-snoc w.events (in_flight (pos 1)),
)
leave-Level has pattern r c w (panicked p w') h = ground (
  arith,
  h,
  ups-snoc w'.events (in_flight (negsuc 0)),
  downs-snoc w'.events (in_flight (negsuc 0)),
  ups-snoc w.events (in_flight (pos 1)),
  downs-snoc w.events (in_flight (pos 1)),
)

-- Where a handler leaves the gauge as it found it, so does the handler with the middleware around
-- it, whether the handler returns or panics.
pub instrument_handler-Level :
    (has : Interfaces) (pattern : Request → World → String) (next : Handler) (r : Request)
    (c : Conn) (w : World)
    → Level (entered has pattern c w) (world_of (next r (entered has pattern c w)))
    → Level w (world_of (instrument_handler has pattern next r c w))
unfolding instrument_handler
instrument_handler-Level has pattern next r c w h =
    leave-Level has pattern r c w (next r (entered has pattern c w)) h
