-- ===== src/Middleware/RequestLog.antt =====
-- internal/middleware/logging.go: the logger of a request. The variable `logger` belongs to the
-- middleware, not to the request: it is passed from one request to the next.
pub mod Accumulated
pub mod Raced
mod Tests
use yuna.Prelude.{
  String, Bool, true, false, Option, none, some, List, [], ◌∷◌, ◌++◌, ◌==◌, if◌then◌else◌,
}
use yuna.Http.Header
use yuna.Http.Header.{Header}
use yuna.Log.Level.{Attr, text}
use yuna.Log.Logger.{Logger, with_attrs}
use yuna.World.{Request, World, Outcome, Handler, context_key_logger, a_logger, with_value}

-- `info` is how a map of texts is kept as an attribute's value.
module _ (info : List (String × String) → String) where
  abbrev optional : String → String → List (String × String)
  optional key value = if value == "" then [] else (key, value) ∷ []

  unfoldable pub request_info : Header → Request → List (String × String)
  request_info header r =
      (("method", r.method) ∷ ("path", r.path) ∷ ("uri", r.uri) ∷ [])
      ++ optional "origin" (Header.get "Origin" header)
      ++ optional "user_agent" (Header.get "User-Agent" header)

  abbrev pub with_text : String → String → Logger → Logger
  with_text key value l =
      if value == "" then l else with_attrs (record { key = key; value = text value } ∷ []) l

  -- The logger after one request's assignments.
  unfoldable pub extend : Header → Request → Logger → Logger
  unfolding with_attrs request_info
  extend header r l =
      let l = with_text "request_id" (Header.get "X-Request-ID" header) l in
      let l = with_text "correlation_id" (Header.get "X-Correlation-ID" header) l in
      let l =
        if r.ctx.span.has_trace_id
        then with_attrs (record { key = "trace_id"; value = text r.ctx.span.trace_id } ∷ []) l
        else l in
      with_attrs (record { key = "http_request"; value = text (info (request_info header r)) } ∷ [])
        l

  unfoldable pub request_logger : Handler → Request → World → Logger → Outcome × Logger
  unfolding extend with_value
  request_logger next r w logger =
      let logger = extend w.request_header r logger in
      (
        next (record r { ctx = with_value context_key_logger (a_logger (some logger)) r.ctx }) w,
        logger,
      )
