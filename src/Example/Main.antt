-- ===== src/Example/Main.antt =====
-- examples/restapi/main.go: main, up to the call of Start.
pub mod Served
mod Tests
use Prim.Native.String
use yuna.Prelude.{ℕ, String, Bool, true, false, Option, none, some, List, [], ◌∷◌, ◌++◌, ◌⊎◌}
use yuna.Log.Level.{Level, Attr, text, level_error, level_info}
use yuna.Log.Logger.{
  Logger, LogState, Record, Stop, LogOption, with_level, panic, get_logger, with_attrs, new,
}
use yuna.World.{Any, Context, Request, World}
use yuna.Health.{ComponentRegistration, HealthcheckHandler, status_up}
use yuna.Options.{BaseOption, with_metrics, with_pprof, with_health_checks, authenticating}
use yuna.Operations.{second, register_health_check}
use yuna.Operations.Endpoints.{Sources}
use yuna.Router.{Chi}
use yuna.App.{Packages}
use yuna.App.Built
use yuna.App.Built.{Built}
use yuna.Example.{
  token_authenticator, routes, Telemetry, shutdown_function, init_failed, Globals,
  init_open_telemetry,
}

abbrev pub options : List BaseOption
options = with_metrics ∷ with_pprof ∷ with_health_checks ∷ authenticating token_authenticator ∷ []

abbrev pub silly_check : ComponentRegistration
silly_check = record {
  name = "Silly";
  critical = true;
  checker = λ timeout. status_up;
  tags = "silly" ∷ [];
  timeout = second;
}

-- The handler of otel's own errors: `err` is the text of one, and `name` slog's name of a level.
unfoldable pub handle_otel_error : (Level → String) → String → LogState → List Record → List Record
unfolding new with_attrs
handle_otel_error name err s rs =
    let (l, _) = new name (with_level level_error ∷ []) s in
    let l = with_attrs (record { key = "logger"; value = text "opentelemetry" } ∷ []) l in
    rs ++ (l, level_error, err) ∷ []

-- The application as it starts: New's result, the components of its health checks, and what chi's
-- routers and the log have come to.
pub record Application (Store Handle : Type 0) : Type 0 where
  pub built : Built Handle
  pub health_handler : HealthcheckHandler
  pub store : Store
  pub world : World

-- What main comes to before it starts the servers.
pub data Begun (Store Handle : Type 0) : Type 0 where
  stops : Stop → Begun Store Handle
  starts : Application Store Handle → Begun Store Handle

module _ {Store Handle : Type 0} (chi : Chi Store Handle) (p : Packages) (sources : Sources)
    (uuid : Request → String) (string_map : List (String × String) → Any)
    (parse : String → Option String) where
  module _ (decode : Request → World → Bool) (bind : Request → String ⊎ String)
      (params : Request → String) (event_uuid : Request → World → String) where
    abbrev registered : Built Handle → World → HealthcheckHandler × World
    registered b w =
        register_health_check b.yuna.logger b.yuna.config.healthcheck_enabled silly_check
          (b.yuna.health_handler, w)

    abbrev set_up_on : World → Built Handle × Store → Application Store Handle
    set_up_on w (b, s) = record {
      built = b;
      health_handler = (registered b w).0;
      store =
          routes p.marshal string_map p.start parse chi decode bind params event_uuid b.router s;
      world = (registered b w).1;
    }

    unfoldable pub set_up : LogState → Store → World → Application Store Handle
    unfolding Built.new register_health_check routes
    set_up logs s w = set_up_on w (Built.new chi p sources uuid logs options s)

    abbrev begin_with :
        LogState
        → Store
        → World
        → List Record
        → Telemetry × Globals
        → Begun Store Handle × List Record
    begin_with logs s w rs (shutdown_function, g) = (starts (set_up logs s w), rs)
    begin_with logs s w rs (init_failed err, g) =
        let (stop, rs) =
          panic (get_logger logs) (String.◌++◌ "Failed to initialize OpenTelemetry: " err) rs in
        (stops stop, rs)

    -- `trace_exporter` and `metric_exporter` are the errors of the two exporters.
    unfoldable pub main :
        Option String
        → Option String
        → Globals
        → LogState
        → Store
        → World
        → List Record
        → Begun Store Handle × List Record
    unfolding set_up init_open_telemetry get_logger panic
    main trace_exporter metric_exporter g logs s w rs =
        begin_with logs s w (rs ++ (get_logger logs, level_info, "Initializing application") ∷ [])
          (init_open_telemetry trace_exporter metric_exporter g)
