-- ===== src/Example/Main/Tests.antt =====
-- The example over chi as its trees.
use yuna.Prelude.{
  ℕ, String, Bool, false, Option, none, some, List, [], ◌∷◌, ◌++◌, ◌≡◌, refl, ◌⊎◌, inr, map,
}
use yuna.Log.Level.{level_info}
use yuna.Log.Logger.{Record, get_logger}
use yuna.World.{Any, Request, World, value}
use yuna.Handler.Nesting.{nest}
use yuna.Router.Lists.{Pointer, tree_chi, documented, no_routes}
use yuna.Router.Trees.{Trees, serves, routed}
use yuna.Operations.Served.{routes_of}
use yuna.Operations.Endpoints.{Sources}
use yuna.App.{Packages}
use yuna.Example.{Globals, shutdown_telemetry}
use yuna.Example.Main.{Application, starts, main, silly_check}
use yuna.Example.Main.Served.{own_routes, api_routes, main_serves}
use yuna.Sample.{marshal, start, has, pattern, logs, nothing, world}

abbrev packages : Packages
packages = record {
  marshal = marshal;
  info = λ entries. "info";
  otel = λ opts h. h;
  start = start;
  has = has;
  pattern = pattern;
  chain = nest;
}

abbrev sources : Sources
sources = record {
  metrics = nothing;
  default_mux = nothing;
  health = nothing;
  build_info = λ r. none;
  uptime = λ r. some "{}";
  level = λ r. inr "EOF";
  response = λ err. some err;
  show = λ n. "8082";
}

abbrev uuid_of : Request → String
uuid_of r = "u-1"

abbrev string_map : List (String × String) → Any
string_map entries = value 0

abbrev parse : String → Option String
parse s = none

abbrev decode : Request → World → Bool
decode r w = false

abbrev bind : Request → String ⊎ String
bind r = inr "{[] []}"

abbrev params : Request → String
params r = "{[] []}"

abbrev event_uuid : Request → World → String
event_uuid r w = "e-1"

abbrev unset : Globals
unset = record { tracer_provider = false; propagator = false; meter_provider = false }

abbrev no_records : List Record
no_records = []

main_serves_example :
    (a : Application Trees Pointer) × (main tree_chi packages sources uuid_of string_map parse
        decode bind params event_uuid none none unset logs no_routes world no_records
      ≡ (starts a, no_records ++ (get_logger logs, level_info, "Initializing application") ∷ []))
    × (let main_tree = a.store.view (documented.tree a.built.router) in
        let ops_tree = a.store.view (documented.tree a.built.op_server.handler) in
        (main_tree.routes
          ≡ own_routes tree_chi documented packages sources uuid_of string_map parse decode bind
              params event_uuid)
        × ((i : ℕ) × (main_tree.mounts ≡ ("/api", routed i) ∷ [])
            × ((a.store.view i).routes
                ≡ api_routes tree_chi documented packages sources uuid_of string_map parse decode
                    bind params event_uuid))
        × (ops_tree.routes ≡ routes_of sources a.built.yuna.logger)
        × (ops_tree.mounts
            ≡ ("/metrics", serves sources.metrics)
              ∷ ("/debug/pprof/", serves sources.default_mux)
              ∷ ("/healthz", serves sources.health)
              ∷ []))
    × (a.store.panicked ≡ false)
    × (a.health_handler.components ≡ silly_check ∷ [])
    × (a.world ≡ world)
main_serves_example =
    main_serves tree_chi documented packages sources uuid_of string_map parse decode bind params
      event_uuid unset logs no_routes world no_records

-- The methods and the paths of the routes under /api.
paths :
    map {B = String × String}
      (λ e. (e.0, e.1))
      (api_routes tree_chi documented packages sources uuid_of string_map parse decode bind params
        event_uuid)
    ≡ ("POST", "/event")
      ∷ ("GET", "/event")
      ∷ ("GET", "/event-manual")
      ∷ ("GET", "/silly")
      ∷ ("GET", "/order")
      ∷ ("GET", "/responderfunc")
      ∷ []
paths = refl

-- Whatever a provider's Shutdown comes to, the function for the shutdown returns nil.
shutdown_error_dropped : shutdown_telemetry (some "deadline exceeded") none ≡ none
unfolding shutdown_telemetry
shutdown_error_dropped = refl
