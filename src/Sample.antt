-- ===== src/Sample.antt =====
-- Concrete values for the tests: a connection, a world, a request, and a small json.Marshal.
use Prim.Native.String
use yuna.Prelude.{
  ℕ, ◌/◌, ◌%◌, eqb, if◌then◌else◌, String, true, false, Option, none, some, [], ◌∷◌, pos,
}
use yuna.Http.Conn.{fresh}
use yuna.Http.Header.{Header}
use yuna.Middleware.ResponseWriter.{Interfaces}
use yuna.Log.Level.{Level}
use yuna.Log.Logger.{Logger, LogState, stderr}
use yuna.World.{
  Any, null, text, boolean, number, bytes, violations, value, Context, Request, World, plain,
  Handler, returned, panicked, Panic, abort_handler,
}

abbrev pub name : Level → String
name l = "LEVEL"

-- Loggers with the cells 0, 1 and 2.
abbrev pub logger_with : ℕ → Logger
logger_with cell = record {
  settings = record { output = stderr; add_source = false; replace = λ a. a };
  attrs = [];
  groups = [];
  level = cell;
}

abbrev pub global : Logger
global = logger_with 0

abbrev pub logger : Logger
logger = logger_with 1

abbrev pub other : Logger
other = logger_with 2

abbrev pub logs : LogState
logs = record { cells = λ cell. pos 0; next = 3; global = global }

abbrev pub request_header : Header
request_header =
    ("X-Request-Id", "r-1" ∷ []) ∷ ("Content-Type", "application/json; charset=utf-8" ∷ []) ∷ []

abbrev pub world : World
world = record { writer = plain fresh; request_header = request_header; logs = logs; events = [] }

abbrev pub request : Request
request = record {
  method = "POST";
  path = "/books";
  uri = "/books?page=2";
  ctx = record {
    values = [];
    span = record { has_trace_id = true; trace_id = "t-1"; sampled = true };
  };
}

abbrev pub has : Interfaces
has = record {
  reader_from = true;
  string_writer = true;
  pusher = false;
  hijacker = false;
  flusher = true;
}

abbrev digit : ℕ → String
digit n =
    if eqb n 0
    then "0"
    else if eqb n 1
    then "1"
    else if eqb n 2
    then "2"
    else if eqb n 3
    then "3"
    else if eqb n 4
    then "4"
    else "5"

-- A status of three digits, as those that the tests use.
abbrev show : ℕ → String
show n = String.◌++◌ (digit (n / 100)) (String.◌++◌ (digit (n / 10 % 10)) (digit (n % 10)))

abbrev pub marshal : Any → Option String
marshal null = some "null"
marshal (text s) = some (String.◌++◌ "\"" (String.◌++◌ s "\""))
marshal (boolean true) = some "true"
marshal (boolean false) = some "false"
marshal (number n) = some (show n)
marshal (bytes bs) = some "\"PGI+\""
marshal (violations vs) = some "{}"
marshal (value n) = none

abbrev pub start : Context → Context
start ctx = ctx

abbrev pub nothing : Handler
nothing r w = returned w

abbrev pub crash : Handler
crash r w = panicked (Panic.other "boom") w

abbrev pub abort : Handler
abort r w = panicked abort_handler w

abbrev pub pattern : Request → World → String
pattern r w = "/books"
