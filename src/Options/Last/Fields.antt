-- ===== src/Options/Last/Fields.antt =====
-- The settings that an option changes, for six of them.
use yuna.Prelude.{ℤ, String, Bool, true, Option, none, some, List, [], ◌∷◌, ◌≡◌, refl}
use yuna.Log.Logger.{Logger}
use yuna.Auth.{HttpAuthenticator}
use yuna.Options.{
  Config, BaseOption, apply, with_trace_provider, with_meter_provider,
  with_request_duration_buckets, with_http_port, with_read_timeout, with_read_header_timeout,
  with_write_timeout, with_idle_timeout, with_base_context, with_not_found_handler,
  with_method_not_allowed_handler, with_operations_http_port, with_metrics, with_pprof,
  with_health_checks, with_health_checks_base_path, with_logger, authenticating,
  client_on_before_request, client_on_after_response, client_on_client_error,
  with_client_http_instrumenter,
}

-- The last value of a list, or else the default.
abbrev pub last_or {ℓ} : {A : Type ℓ} → A → List A → A
last_or a [] = a
last_or a (b ∷ bs) = last_or b bs

abbrev pub put {ℓ} : {A : Type ℓ} → Option A → List A → List A
put none xs = xs
put (some x) xs = x ∷ xs

-- The values that a list of options gives to a setting.
abbrev pub given {ℓ} : {A : Type ℓ} → (BaseOption → Option A) → List BaseOption → List A
given set [] = []
given set (o ∷ os) = put (set o) (given set os)

abbrev pub port_of : BaseOption → Option (ℤ)
port_of (with_http_port x) = some x
port_of _ = none

abbrev pub ops_port_of : BaseOption → Option (ℤ)
ops_port_of (with_operations_http_port x) = some x
ops_port_of _ = none

abbrev pub auth_of : BaseOption → Option (Option HttpAuthenticator)
auth_of (authenticating x) = some (some x)
auth_of _ = none

abbrev pub health_of : BaseOption → Option (Bool)
health_of with_health_checks = some true
health_of _ = none

abbrev pub base_path_of : BaseOption → Option (String)
base_path_of (with_health_checks_base_path x) = some x
base_path_of _ = none

abbrev pub logger_of : BaseOption → Option (Logger)
logger_of (with_logger x) = some x
logger_of _ = none

pub port_of_lem :
    (o : BaseOption) (c : Config) → (apply o c).http_port ≡ last_or c.http_port (put (port_of o) [])
unfolding apply
port_of_lem (with_trace_provider x) c = refl
port_of_lem (with_meter_provider x) c = refl
port_of_lem (with_request_duration_buckets x) c = refl
port_of_lem (with_http_port x) c = refl
port_of_lem (with_read_timeout x) c = refl
port_of_lem (with_read_header_timeout x) c = refl
port_of_lem (with_write_timeout x) c = refl
port_of_lem (with_idle_timeout x) c = refl
port_of_lem (with_base_context x) c = refl
port_of_lem (with_not_found_handler x) c = refl
port_of_lem (with_method_not_allowed_handler x) c = refl
port_of_lem (with_operations_http_port x) c = refl
port_of_lem with_metrics c = refl
port_of_lem with_pprof c = refl
port_of_lem with_health_checks c = refl
port_of_lem (with_health_checks_base_path x) c = refl
port_of_lem (with_logger x) c = refl
port_of_lem (authenticating x) c = refl
port_of_lem (client_on_before_request x) c = refl
port_of_lem (client_on_after_response x) c = refl
port_of_lem (client_on_client_error x) c = refl
port_of_lem (with_client_http_instrumenter x) c = refl

pub ops_port_of_lem :
    (o : BaseOption) (c : Config)
    → (apply o c).operation_http_port ≡ last_or c.operation_http_port (put (ops_port_of o) [])
unfolding apply
ops_port_of_lem (with_trace_provider x) c = refl
ops_port_of_lem (with_meter_provider x) c = refl
ops_port_of_lem (with_request_duration_buckets x) c = refl
ops_port_of_lem (with_http_port x) c = refl
ops_port_of_lem (with_read_timeout x) c = refl
ops_port_of_lem (with_read_header_timeout x) c = refl
ops_port_of_lem (with_write_timeout x) c = refl
ops_port_of_lem (with_idle_timeout x) c = refl
ops_port_of_lem (with_base_context x) c = refl
ops_port_of_lem (with_not_found_handler x) c = refl
ops_port_of_lem (with_method_not_allowed_handler x) c = refl
ops_port_of_lem (with_operations_http_port x) c = refl
ops_port_of_lem with_metrics c = refl
ops_port_of_lem with_pprof c = refl
ops_port_of_lem with_health_checks c = refl
ops_port_of_lem (with_health_checks_base_path x) c = refl
ops_port_of_lem (with_logger x) c = refl
ops_port_of_lem (authenticating x) c = refl
ops_port_of_lem (client_on_before_request x) c = refl
ops_port_of_lem (client_on_after_response x) c = refl
ops_port_of_lem (client_on_client_error x) c = refl
ops_port_of_lem (with_client_http_instrumenter x) c = refl

pub auth_of_lem :
    (o : BaseOption) (c : Config)
    → (apply o c).authenticator ≡ last_or c.authenticator (put (auth_of o) [])
unfolding apply
auth_of_lem (with_trace_provider x) c = refl
auth_of_lem (with_meter_provider x) c = refl
auth_of_lem (with_request_duration_buckets x) c = refl
auth_of_lem (with_http_port x) c = refl
auth_of_lem (with_read_timeout x) c = refl
auth_of_lem (with_read_header_timeout x) c = refl
auth_of_lem (with_write_timeout x) c = refl
auth_of_lem (with_idle_timeout x) c = refl
auth_of_lem (with_base_context x) c = refl
auth_of_lem (with_not_found_handler x) c = refl
auth_of_lem (with_method_not_allowed_handler x) c = refl
auth_of_lem (with_operations_http_port x) c = refl
auth_of_lem with_metrics c = refl
auth_of_lem with_pprof c = refl
auth_of_lem with_health_checks c = refl
auth_of_lem (with_health_checks_base_path x) c = refl
auth_of_lem (with_logger x) c = refl
auth_of_lem (authenticating x) c = refl
auth_of_lem (client_on_before_request x) c = refl
auth_of_lem (client_on_after_response x) c = refl
auth_of_lem (client_on_client_error x) c = refl
auth_of_lem (with_client_http_instrumenter x) c = refl

pub health_of_lem :
    (o : BaseOption) (c : Config)
    → (apply o c).healthcheck_enabled ≡ last_or c.healthcheck_enabled (put (health_of o) [])
unfolding apply
health_of_lem (with_trace_provider x) c = refl
health_of_lem (with_meter_provider x) c = refl
health_of_lem (with_request_duration_buckets x) c = refl
health_of_lem (with_http_port x) c = refl
health_of_lem (with_read_timeout x) c = refl
health_of_lem (with_read_header_timeout x) c = refl
health_of_lem (with_write_timeout x) c = refl
health_of_lem (with_idle_timeout x) c = refl
health_of_lem (with_base_context x) c = refl
health_of_lem (with_not_found_handler x) c = refl
health_of_lem (with_method_not_allowed_handler x) c = refl
health_of_lem (with_operations_http_port x) c = refl
health_of_lem with_metrics c = refl
health_of_lem with_pprof c = refl
health_of_lem with_health_checks c = refl
health_of_lem (with_health_checks_base_path x) c = refl
health_of_lem (with_logger x) c = refl
health_of_lem (authenticating x) c = refl
health_of_lem (client_on_before_request x) c = refl
health_of_lem (client_on_after_response x) c = refl
health_of_lem (client_on_client_error x) c = refl
health_of_lem (with_client_http_instrumenter x) c = refl

pub base_path_of_lem :
    (o : BaseOption) (c : Config)
    → (apply o c).healthcheck_base_path ≡ last_or c.healthcheck_base_path (put (base_path_of o) [])
unfolding apply
base_path_of_lem (with_trace_provider x) c = refl
base_path_of_lem (with_meter_provider x) c = refl
base_path_of_lem (with_request_duration_buckets x) c = refl
base_path_of_lem (with_http_port x) c = refl
base_path_of_lem (with_read_timeout x) c = refl
base_path_of_lem (with_read_header_timeout x) c = refl
base_path_of_lem (with_write_timeout x) c = refl
base_path_of_lem (with_idle_timeout x) c = refl
base_path_of_lem (with_base_context x) c = refl
base_path_of_lem (with_not_found_handler x) c = refl
base_path_of_lem (with_method_not_allowed_handler x) c = refl
base_path_of_lem (with_operations_http_port x) c = refl
base_path_of_lem with_metrics c = refl
base_path_of_lem with_pprof c = refl
base_path_of_lem with_health_checks c = refl
base_path_of_lem (with_health_checks_base_path x) c = refl
base_path_of_lem (with_logger x) c = refl
base_path_of_lem (authenticating x) c = refl
base_path_of_lem (client_on_before_request x) c = refl
base_path_of_lem (client_on_after_response x) c = refl
base_path_of_lem (client_on_client_error x) c = refl
base_path_of_lem (with_client_http_instrumenter x) c = refl

pub logger_of_lem :
    (o : BaseOption) (c : Config) → (apply o c).logger ≡ last_or c.logger (put (logger_of o) [])
unfolding apply
logger_of_lem (with_trace_provider x) c = refl
logger_of_lem (with_meter_provider x) c = refl
logger_of_lem (with_request_duration_buckets x) c = refl
logger_of_lem (with_http_port x) c = refl
logger_of_lem (with_read_timeout x) c = refl
logger_of_lem (with_read_header_timeout x) c = refl
logger_of_lem (with_write_timeout x) c = refl
logger_of_lem (with_idle_timeout x) c = refl
logger_of_lem (with_base_context x) c = refl
logger_of_lem (with_not_found_handler x) c = refl
logger_of_lem (with_method_not_allowed_handler x) c = refl
logger_of_lem (with_operations_http_port x) c = refl
logger_of_lem with_metrics c = refl
logger_of_lem with_pprof c = refl
logger_of_lem with_health_checks c = refl
logger_of_lem (with_health_checks_base_path x) c = refl
logger_of_lem (with_logger x) c = refl
logger_of_lem (authenticating x) c = refl
logger_of_lem (client_on_before_request x) c = refl
logger_of_lem (client_on_after_response x) c = refl
logger_of_lem (client_on_client_error x) c = refl
logger_of_lem (with_client_http_instrumenter x) c = refl
