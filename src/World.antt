-- ===== src/World.antt =====
-- What a handler sees and changes: the request with its context, the writer of the response, the
-- request's header (a map that every copy of the request shares), the loggers, and the events that
-- it leaves with the logger, the tracer and the meter.
-- internal/context.go names the keys of the context; the Principal is auth.go's.
pub mod Sent
use Prim.Native.String
use yuna.Prelude.{
  ℕ, String, Bool, Option, none, some, List, [], ◌∷◌, ◌++◌, ℤ, if◌then◌else◌, true, false,
}
use yuna.Http.Header.{Header}
use yuna.Http.Conn
use yuna.Http.Conn.{Conn, WriteError}
use yuna.Middleware.ResponseWriter
use yuna.Middleware.ResponseWriter.{ResponseWriter}
use yuna.Log.Level.{Level, level_error}
use yuna.Log.Logger
use yuna.Log.Logger.{Logger, LogState}

-- A Go value of type `any`, as far as the program looks into it: the rest is the application's, and
-- is named by a number.
pub data Any : Type 0 where
  null : Any
  text : String → Any
  boolean : Bool → Any
  number : ℕ → Any
  bytes : List ℕ → Any
  violations : List (String × List String) → Any
  value : ℕ → Any

-- The interface Principal: what its methods answer.
pub record Principal : Type 0 where
  pub name : String
  pub subject_id : String
  pub anonymous : Bool
  pub has_role : String → Bool
  pub attribute : String → Option Any

pub data ContextKey : Type 0 where
  context_key_logger context_key_resty_templated_path context_key_principal : ContextKey

-- The values that the program stores; a nil pointer or interface is `none`.
pub data ContextValue : Type 0 where
  a_logger : Option Logger → ContextValue
  a_path : String → ContextValue
  a_principal : Option Principal → ContextValue

-- otel's span context, by what the program asks of it.
pub record SpanContext : Type 0 where
  pub has_trace_id : Bool
  pub trace_id : String
  pub sampled : Bool

-- A context: the values stored in it, the innermost first, and the span that otel finds in it.
pub record Context : Type 0 where
  pub values : List (ContextKey × ContextValue)
  pub span : SpanContext

pub record Request : Type 0 where
  pub method : String
  pub path : String
  pub uri : String
  pub ctx : Context

-- The writer that a handler is given: net/http's, or the one that records.
pub data Writer : Type 0 where
  plain : Conn → Writer
  recording : ResponseWriter → Writer

-- What is left with the logger, the meter and the tracer.
pub data Event : Type 0 where
  logged : Logger → Level → String → Event
  in_flight : ℤ → Event
  latency : ℕ → String → String → Event
  span_started : String → Event
  span_failed : String → Event
  span_principal : String → String → Bool → Event
  span_ended : Event
  printed : String → Event

pub record World : Type 0 where
  pub writer : Writer
  pub request_header : Header
  pub logs : LogState
  pub events : List Event

pub data Panic : Type 0 where
  abort_handler : Panic  -- http.ErrAbortHandler
  other : String → Panic

pub data Outcome : Type 0 where
  returned : World → Outcome
  panicked : Panic → World → Outcome

abbrev pub Handler : Type 0
Handler = Request → World → Outcome

abbrev pub Middleware : Type 0
Middleware = Handler → Handler

-- The world that is left, by a return or by a panic.
abbrev pub world_of : Outcome → World
world_of (returned w) = w
world_of (panicked p w) = w

-- The connection behind a writer.
abbrev pub conn_of : Writer → Conn
conn_of (plain c) = c
conn_of (recording r) = r.inner

abbrev pub with_conn : Conn → Writer → Writer
with_conn c (plain _) = plain c
with_conn c (recording r) = recording (record r { inner = c })

-- w.Header(), changed
unfoldable pub map_header : (Header → Header) → World → World
map_header f w =
    let c = conn_of w.writer in
    record w { writer = with_conn (record c { header = f c.header }) w.writer }

abbrev writer_header : ℕ → Writer → Writer
writer_header code (plain c) = plain (Conn.write_header code c)
writer_header code (recording r) = recording (ResponseWriter.write_header code r)

unfoldable pub write_header : ℕ → World → World
unfolding Conn.write_header ResponseWriter.write_header
write_header code w = record w { writer = writer_header code w.writer }

abbrev writer_write : String → Writer → Writer × Option WriteError
writer_write s (plain c) = let (c', n, e) = Conn.write s c in (plain c', e)
writer_write s (recording r) = let (r', n, e) = ResponseWriter.write s r in (recording r', e)

unfoldable pub write : String → World → World × Option WriteError
unfolding Conn.write ResponseWriter.write
write s w = let (wr, e) = writer_write s w.writer in (record w { writer = wr }, e)

unfoldable pub emit : Event → World → World
emit e w = record w { events = w.events ++ e ∷ [] }

-- ctx.Value(key): the innermost value stored under the key.
abbrev is_key : ContextKey → ContextKey → Bool
is_key context_key_logger context_key_logger = true
is_key context_key_resty_templated_path context_key_resty_templated_path = true
is_key context_key_principal context_key_principal = true
is_key _ _ = false

unfoldable pub value_of : ContextKey → List (ContextKey × ContextValue) → Option ContextValue
value_of k [] = none
value_of k ((j, v) ∷ vs) = if is_key j k then some v else value_of k vs

-- context.WithValue
unfoldable pub with_value : ContextKey → ContextValue → Context → Context
with_value k v ctx = record ctx { values = (k, v) ∷ ctx.values }

-- The type assertion to a logger, which a nil pointer passes.
abbrev as_logger : Option ContextValue → Option Logger
as_logger (some (a_logger l)) = l
as_logger _ = none

-- log.LoggerFromCtx
unfoldable pub logger_from_ctx : Context → LogState → Logger
unfolding value_of Logger.logger_from
logger_from_ctx ctx s = Logger.logger_from (as_logger (value_of context_key_logger ctx.values)) s

-- An error record with the logger of the context; its attributes are left out.
unfoldable pub log_error : Context → String → World → World
unfolding logger_from_ctx emit
log_error ctx msg w = emit (logged (logger_from_ctx ctx w.logs) level_error msg) w

-- json.NewEncoder(w).Encode, for a value that marshals to `json`: it writes nothing if the value
-- does not marshal, and otherwise the text and a newline in one write. The answer is whether it
-- returned an error.
abbrev encode_text : World × Option WriteError → World × Bool
encode_text (w, none) = (w, false)
encode_text (w, some e) = (w, true)

unfoldable pub encode : Option String → World → World × Bool
unfolding write
encode none w = (w, true)
encode (some json) w = encode_text (write (String.◌++◌ json "\n") w)
