-- ===== src/Operations/Tests.antt =====
-- The log level endpoint on two bodies, and a check without a timeout.
use Prim.Native.String
use yuna.Prelude.{
  String, true, false, any, if◌then◌else◌, Option, none, some, [], ◌∷◌, ◌++◌, ◌≡◌, refl, arith, ◌⊎◌,
  inr, List, eqb, map, All,
}
use yuna.World.{conn_of}
use yuna.Log.Level.{parse_level, level_debug}
use yuna.Log.Logger.{level_of}
use mathlib.Core.List.{Permᴰ}
use yuna.Http.Header.{values_of}
use yuna.Health.Overall.{is_fatal, overall, describe}
use yuna.Health.Pool
use yuna.Health.Pool.{Pool, start, Reach, send, done}
use yuna.Operations.Probe.{probe_of_registered, results_of}
use yuna.Operations.{put_log_level, second, register_health_check, settle_timeout}
use yuna.Health.{
  ComponentRegistration, HealthResponse, check, register, ready, respond_with,
  new_healthcheck_handler, status_up, status_down,
}
use yuna.Sample.{world, logger, other}
use yuna.World.{Handler, returned}
use yuna.Options.{Config, default_config, apply_all, with_metrics, with_health_checks}
use yuna.Router.Lists.{tree_chi, documented, no_routes}
use yuna.Router.Trees.{fresh, add_routes, add_mounts}
use yuna.Operations.Endpoints.{Sources, init_ops_server}
use yuna.Operations.Served.{look-init_ops_server, routes_of, mounts_of}
use yuna.Operations.LogLevel.{put_log_level_sets, put_log_level_rejects}
use yuna.Operations.Registered.{registered_with_timeout, register_all}

abbrev answer : String → Option String
answer err = some err

abbrev misspelt : String ⊎ String
misspelt = inr "loud"

put_log_level_sets_run :
    let w' = put_log_level answer logger (inr "Debug") world in
    (level_of logger w'.logs ≡ level_debug)
    × (level_of world.logs.global w'.logs ≡ level_debug)
    × (level_of other w'.logs ≡ level_of other world.logs)
    × ((conn_of w'.writer).status ≡ 200)
unfolding parse_level yuna.Text.to_lower
put_log_level_sets_run =
    put_log_level_sets answer logger other "Debug" "" level_debug world refl refl refl
      (λ e. ground (arith, e)) (λ e. ground (arith, e))

put_log_level_rejects_run :
    let w' = put_log_level answer logger misspelt world in
    (w'.logs ≡ world.logs)
    × (w'.events ≡ world.events)
    × ((conn_of w'.writer).status ≡ 400)
    × ((conn_of w'.writer).body
        ≡ (conn_of world.writer).body ++ String.◌++◌ "invalid log level: loud" "\n" ∷ [])
unfolding parse_level yuna.Text.to_lower
put_log_level_rejects_run =
    put_log_level_rejects answer logger misspelt "invalid log level: loud" "invalid log level: loud"
      world refl refl refl

abbrev slow : ComponentRegistration
slow = record {
  name = "slow";
  critical = false;
  checker = λ timeout. status_up;
  tags = [];
  timeout = 0;
}

abbrev checks : List ComponentRegistration
checks = slow ∷ slow ∷ []

registered_with_timeout_run :
    let components =
      (register_all logger false checks (new_healthcheck_handler, world)).0.components in
    (map (λ c. c.name) components ≡ map (λ c. c.name) checks)
    × All (λ c. eqb c.timeout 0 ≡ false) components
registered_with_timeout_run = registered_with_timeout logger false checks world

abbrev nothing : Handler
nothing r w = returned w

abbrev sources : Sources
sources = record {
  metrics = nothing;
  default_mux = nothing;
  health = nothing;
  build_info = λ r. none;
  uptime = λ r. some "{}";
  level = λ r. misspelt;
  response = answer;
  show = λ n. "8082";
}

abbrev conf : Config
conf = apply_all (with_metrics ∷ with_health_checks ∷ []) (default_config (λ a. none) world.logs)

look-init_ops_server_run :
    (documented.tree (init_ops_server tree_chi sources logger conf no_routes).0.handler ≡ 0)
    × ((init_ops_server tree_chi sources logger conf no_routes).1
        ≡ add_routes 0
            (routes_of sources logger)
            (add_mounts 0 (mounts_of sources conf) (fresh no_routes)))
unfolding yuna.Router.Trees.takes_routes yuna.Router.Trees.takes_route yuna.Router.Trees.is_plain
    yuna.Text.has_prefix yuna.Text.before yuna.Text.has_suffix yuna.Router.Trees.slashed
    yuna.Router.Trees.takes_mounts yuna.Router.Trees.takes_mount apply_all default_config
look-init_ops_server_run =
    look-init_ops_server tree_chi documented sources logger conf no_routes refl

-- A critical component that is down, registered without a timeout, and its one check done.
abbrev database : ComponentRegistration
database = record {
  name = "database";
  critical = true;
  checker = λ timeout. status_down;
  tags = [];
  timeout = 0;
}

abbrev settled : ComponentRegistration
settled = record database { timeout = second }

abbrev checked : Pool
checked = record { checking = []; sent = 0; wait = 0; channel = check settled ∷ []; capacity = 1 }

checked-Reach :
    Reach
      (start
        (register_all logger true (database ∷ []) (new_healthcheck_handler, world)).0.components)
      checked
unfolding start register_health_check settle_timeout register new_healthcheck_handler
checked-Reach =
    Pool.next (Pool.next Pool.here (send [] [] settled refl (ground arith) refl))
      (done 0 0 refl refl refl)

abbrev marshalled : HealthResponse → Option String
marshalled h = some h.status

probe_of_registered_example :
    let c' = conn_of (ready marshalled (respond_with 5 checked.channel) world).writer in
    (c'.status ≡ (if any is_fatal (results_of (database ∷ [])) then 503 else 200))
    × (values_of "X-Health-Status" c'.sent ≡ overall (results_of (database ∷ [])) ∷ [])
    × Permᴰ (respond_with 5 checked.channel).components (map describe (results_of (database ∷ [])))
    × (c'.body ≡ (conn_of world.writer).body ++ String.◌++◌ "DOWN" "\n" ∷ [])
unfolding respond_with check
probe_of_registered_example =
    probe_of_registered marshalled 5 logger true (database ∷ []) world world checked "DOWN"
      checked-Reach refl refl refl
