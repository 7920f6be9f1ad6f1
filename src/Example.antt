-- ===== src/Example.antt =====
-- examples/restapi/main.go: the example application. It prints to the standard output, which is an
-- event here; what its handlers decode of a request is a parameter, and the process itself is left out.
pub mod Silly
pub mod Main
mod Tests
use Prim.Native.String
use yuna.Prelude.{
  ℕ, ℤ, String, Bool, true, false, Option, none, some, List, [], ◌∷◌, ◌==◌, ◌⊎◌, inl, inr,
  if◌then◌else◌,
}
use yuna.Mime.Names.{mime_application_json}
use yuna.Text.{trim_space}
use yuna.Http.Header
use yuna.World.{
  Any, Context, Principal, Request, World, Outcome, returned, panicked, Handler, Middleware, emit,
  printed, write_header,
}
use yuna.Handler.{YunaHandler, Responder, Responded, responded, Answer, answered, wrap}
use yuna.Response.{ResponseBuilder, respond, ok, created, no_content}
use yuna.Problem
use yuna.Problem.{Error, join}
use yuna.Problem.Responses.{bad_request}
use yuna.Auth.{HttpAuthenticator, principal, authenticated}
use yuna.Mime.{consumes}
use yuna.Router.{Chi, Mux}
use yuna.App.Routes

unfoldable pub user_principal : String → String → Bool → Principal
user_principal name id anonymous = record {
  name = name;
  subject_id = id;
  anonymous = anonymous;
  has_role = λ role. false;
  attribute = λ key. none;
}

-- TokenAuthenticator
unfoldable pub token_authenticator : HttpAuthenticator
unfolding trim_space user_principal
token_authenticator r w = principal (
    some (
      if trim_space (Header.get "X-API-Token" w.request_header) == ""
      then user_principal "" "" true
      else user_principal "test-admin" "test-admin" false))

-- fmt.Println("silly middleware: end"), which a panic skips
abbrev say_end : String → Outcome → Outcome
say_end text (returned w) = returned (emit (printed text) w)
say_end text (panicked p w) = panicked p w

unfoldable pub silly_middleware : Middleware
unfolding emit
silly_middleware next r w =
    say_end "silly middleware: end" (next r (emit (printed "silly middleware: start") w))

unfoldable pub silly_middleware2 : Middleware
unfolding emit
silly_middleware2 next r w =
    say_end "silly middleware 2: end" (next r (emit (printed "silly middleware 2: start") w))

-- `marshal` is json.Marshal, `string_map` is a map of texts as a value, `start` is the tracer's start
-- of a span, and `parse` is mime.ParseMediaType.
module _ (marshal : Any → Option String) (string_map : List (String × String) → Any)
    (start : Context → Context) (parse : String → Option String) where
  abbrev pub built : ResponseBuilder → Responder
  unfolding respond
  built rb r w = let (w, failed) = respond marshal rb r w in responded w failed

  abbrev bad : Responder
  bad r w = responded (Problem.respond marshal (bad_request none) r w) false

  abbrev pub message : String → String → YunaHandler
  message key text r w = answered (some (built (ok (string_map ((key, text) ∷ []))))) w

  unfoldable pub hello : YunaHandler
  hello = message "hello" "world"

  unfoldable pub silly_handler : YunaHandler
  silly_handler = message "message" "GET SILLY!"

  unfoldable pub get_order : YunaHandler
  get_order = message "message" "GET ORDER!"

  -- `decode` is whether Decode fails, and `uuid` the text of the new id, which differs by request.
  unfoldable pub create_event : (Request → World → Bool) → (Request → World → String) → YunaHandler
  unfolding created
  create_event decode uuid r w =
      answered
        (some (if decode r w then bad else built (created (String.◌++◌ "/api/event/" (uuid r w)))))
        w

  -- `bind` is what Bind makes of the query, by its error or by the text that is printed.
  abbrev listed : World → String ⊎ String → Answer
  listed w (inl err) = answered (some bad) w
  listed w (inr text) = answered (some (built no_content)) (emit (printed text) w)

  unfoldable pub list_events : (Request → String ⊎ String) → YunaHandler
  unfolding no_content emit
  list_events bind r w = listed w (bind r)

  -- `params` is the text of the query's tags and environments.
  unfoldable pub list_events_manual : (Request → String) → YunaHandler
  unfolding no_content emit
  list_events_manual params r w = answered (some (built no_content)) (emit (printed (params r)) w)

  unfoldable pub responder_func : YunaHandler
  unfolding write_header
  responder_func r w = answered (some (λ r w. responded (write_header 200 w) false)) w

  module _ {Store Handle : Type 0} (chi : Chi Store Handle) where
    -- The routes under /api.
    -- `decode`, `bind`, `params` and `uuid` are as above.
    unfoldable pub api :
        (Request → World → Bool)
        → (Request → String ⊎ String)
        → (Request → String)
        → (Request → World → String)
        → Mux Handle
        → Store
        → Store
    unfolding consumes authenticated silly_middleware silly_middleware2 create_event list_events
        list_events_manual silly_handler get_order responder_func yuna.Router.post yuna.Router.get
    api decode bind params uuid m s =
        let s =
          yuna.Router.post chi m "/event" (create_event decode uuid)
            (consumes marshal parse (mime_application_json ∷ []) ∷ []) s in
        let s = yuna.Router.get chi m "/event" (list_events bind) [] s in
        let s = yuna.Router.get chi m "/event-manual" (list_events_manual params) [] s in
        let s =
          yuna.Router.get chi m "/silly" silly_handler
            (authenticated marshal start ∷ silly_middleware ∷ silly_middleware2 ∷ []) s in
        let s =
          yuna.Router.get chi m "/order" get_order (silly_middleware ∷ silly_middleware2 ∷ []) s in
        yuna.Router.get chi m "/responderfunc" responder_func [] s

    -- The routes of the application, whose router is `h`.
    unfoldable pub routes :
        (Request → World → Bool)
        → (Request → String ⊎ String)
        → (Request → String)
        → (Request → World → String)
        → Handle
        → Store
        → Store
    unfolding hello api Routes.get Routes.route
    routes decode bind params uuid h s =
        let s = Routes.get chi h "/hello" hello [] s in
        Routes.route chi h "/api" (api decode bind params uuid) s

-- Which of otel's globals initOpenTelemtry has set.
pub record Globals : Type 0 where
  pub tracer_provider : Bool
  pub propagator : Bool
  pub meter_provider : Bool

-- What it returns: the function for the shutdown, or an error. The exporters are their errors.
pub data Telemetry : Type 0 where
  shutdown_function : Telemetry
  init_failed : String → Telemetry

abbrev set_tracing : Globals → Globals
set_tracing g = record g { tracer_provider = true; propagator = true }

abbrev init_metrics : Option String → Globals → Telemetry × Globals
init_metrics (some err) g = (init_failed err, g)
init_metrics none g = (shutdown_function, record g { meter_provider = true })

-- The function for the shutdown, whose providers' Shutdown come to these errors. What errors.Join
-- returns is not assigned.
unfoldable pub shutdown_telemetry : Error → Error → Error
unfolding join
shutdown_telemetry traces metrics =
    let err : Error = none in let unused = join err traces in let unused = join err metrics in err

unfoldable pub init_open_telemetry : Option String → Option String → Globals → Telemetry × Globals
init_open_telemetry (some err) exporter g = (init_failed err, g)
init_open_telemetry none exporter g = init_metrics exporter (set_tracing g)
