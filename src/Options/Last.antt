-- ===== src/Options/Last.antt =====
-- Which option decides a setting.
pub mod Fields
use yuna.Prelude.{
  ℤ, pos, String, Bool, true, false, Option, none, some, List, [], ◌∷◌, ◌≡◌, refl, ap, ◌∙◌,
}
use yuna.Log.Logger.{Logger, LogState, get_logger}
use yuna.World.{Any}
use yuna.Auth.{HttpAuthenticator}
use yuna.Options.{
  Config, BaseOption, apply, apply_all, new_config, default_config, with_trace_provider,
  with_meter_provider, with_request_duration_buckets, with_http_port, with_read_timeout,
  with_read_header_timeout, with_write_timeout, with_idle_timeout, with_base_context,
  with_not_found_handler, with_method_not_allowed_handler, with_operations_http_port, with_metrics,
  with_pprof, with_health_checks, with_health_checks_base_path, with_logger, authenticating,
  client_on_before_request, client_on_after_response, client_on_client_error,
  with_client_http_instrumenter,
}
use yuna.Options.Last.Fields.{
  last_or, put, given, port_of, ops_port_of, auth_of, health_of, base_path_of, logger_of,
  port_of_lem, ops_port_of_lem, auth_of_lem, health_of_lem, base_path_of_lem, logger_of_lem,
}

last_or-put {ℓ} :
    {A : Type ℓ} (x : Option A) (a : A) (xs : List A)
    → last_or (last_or a (put x [])) xs ≡ last_or a (put x xs)
last_or-put none a xs = refl
last_or-put (some x) a xs = refl

apply_all-last {ℓ} :
    {A : Type ℓ} (get : Config → A) (set : BaseOption → Option A)
    → ((o : BaseOption) (c : Config) → get (apply o c) ≡ last_or (get c) (put (set o) []))
    → (os : List BaseOption) (c : Config) → get (apply_all os c) ≡ last_or (get c) (given set os)
unfolding apply_all
apply_all-last get set h [] c = refl
apply_all-last get set h (o ∷ os) c =
    apply_all-last get set h os (apply o c)
    ∙ ap (λ a. last_or a (given set os)) (h o c)
    ∙ last_or-put (set o) (get c) (given set os)

-- Whatever the other options are and wherever they stand, the main port, the port of the operations
-- server, the authenticator, the health checks, their base path and the logger are each what the last
-- option for it gives, and without one 8080, 8082, none, off, "/healthz" and the global logger.
pub last_option_wins :
    (marshal : Any → Option String) (s : LogState) (opts : List BaseOption)
    → let c = new_config marshal s opts in
      (c.http_port ≡ last_or (pos 8080) (given port_of opts))
      × (c.operation_http_port ≡ last_or (pos 8082) (given ops_port_of opts))
      × (c.authenticator ≡ last_or none (given auth_of opts))
      × (c.healthcheck_enabled ≡ last_or false (given health_of opts))
      × (c.healthcheck_base_path ≡ last_or "/healthz" (given base_path_of opts))
      × (c.logger ≡ last_or s.global (given logger_of opts))
unfolding new_config default_config get_logger
last_option_wins marshal s opts =
    let c = default_config marshal s in
    (
      apply_all-last (λ c. c.http_port) port_of port_of_lem opts c,
      apply_all-last (λ c. c.operation_http_port) ops_port_of ops_port_of_lem opts c,
      apply_all-last (λ c. c.authenticator) auth_of auth_of_lem opts c,
      apply_all-last (λ c. c.healthcheck_enabled) health_of health_of_lem opts c,
      apply_all-last (λ c. c.healthcheck_base_path) base_path_of base_path_of_lem opts c,
      apply_all-last (λ c. c.logger) logger_of logger_of_lem opts c,
    )
