-- ===== src/Options.antt =====
-- options.go: the configuration of a server or a client, and the options that change it.
pub mod Last
mod Tests
use yuna.Prelude.{ℕ, ℤ, pos, String, Bool, true, false, Option, none, some, List, [], ◌∷◌}
use yuna.Log.Logger.{Logger, LogState, get_logger}
use yuna.Otel.{Provider, otel_global}
use yuna.World.{Any, World, Request, Handler}
use yuna.Problem.{ProblemDetails, respond}
use yuna.Problem.Responses
use yuna.Handler.{YunaHandler, Responder, answered, responded, wrap}
use yuna.Auth.{HttpAuthenticator}

-- A hook of the client: the one that does nothing, or one that the application gives.
pub data Hook : Type 0 where
  no_op : Hook
  hook : ℕ → Hook

-- A nil function or interface is `none`, and one that the application gives is a number; buckets are
-- in thousandths of a second.
pub record Config : Type 0 where
  pub http_port : ℤ
  pub read_timeout : ℤ
  pub read_header_timeout : ℤ
  pub write_timeout : ℤ
  pub idle_timeout : ℤ
  pub base_context : Option ℕ
  pub not_found_handler : Handler
  pub method_not_allowed_handler : Handler
  pub logger : Logger
  pub operation_http_port : ℤ
  pub metrics_enabled : Bool
  pub pprof_enabled : Bool
  pub healthcheck_enabled : Bool
  pub healthcheck_base_path : String
  pub request_duration_buckets : List ℕ
  pub trace_provider : Provider
  pub meter_provider : Provider
  pub authenticator : Option HttpAuthenticator
  pub on_before_request : Hook
  pub on_after_response : Hook
  pub on_client_error : Hook
  pub client_instrumenter : Option ℕ

-- A problem as the responder of a handler.
abbrev answer : (Any → Option String) → ProblemDetails → YunaHandler
answer marshal p r w = answered (some (λ r w. responded (respond marshal p r w) false)) w

-- The handlers of yuna.go for a path, or a method, without a route.
unfoldable pub not_found : (Any → Option String) → YunaHandler
not_found marshal r w = answer marshal Responses.not_found r w

unfoldable pub method_not_allowed : (Any → Option String) → YunaHandler
method_not_allowed marshal r w = answer marshal (Responses.method_not_allowed []) r w

unfoldable pub default_config : (Any → Option String) → LogState → Config
default_config marshal s = record {
  http_port = pos 8080;
  read_timeout = pos 0;
  read_header_timeout = pos 0;
  write_timeout = pos 0;
  idle_timeout = pos 0;
  base_context = none;
  not_found_handler = wrap (not_found marshal) [];
  method_not_allowed_handler = wrap (method_not_allowed marshal) [];
  logger = get_logger s;
  operation_http_port = pos 8082;
  metrics_enabled = false;
  pprof_enabled = false;
  healthcheck_enabled = false;
  healthcheck_base_path = "/healthz";
  request_duration_buckets = 10 ∷ 25 ∷ 50 ∷ 100 ∷ 250 ∷ 500 ∷ 1000 ∷ [];
  trace_provider = otel_global;
  meter_provider = otel_global;
  authenticator = none;
  on_before_request = no_op;
  on_after_response = no_op;
  on_client_error = no_op;
  client_instrumenter = none;
}

pub data BaseOption : Type 0 where
  with_trace_provider : Provider → BaseOption
  with_meter_provider : Provider → BaseOption
  with_request_duration_buckets : List ℕ → BaseOption
  with_http_port : ℤ → BaseOption
  with_read_timeout : ℤ → BaseOption
  with_read_header_timeout : ℤ → BaseOption
  with_write_timeout : ℤ → BaseOption
  with_idle_timeout : ℤ → BaseOption
  with_base_context : Option ℕ → BaseOption
  with_not_found_handler : Handler → BaseOption
  with_method_not_allowed_handler : Handler → BaseOption
  with_operations_http_port : ℤ → BaseOption
  with_metrics : BaseOption
  with_pprof : BaseOption
  with_health_checks : BaseOption
  with_health_checks_base_path : String → BaseOption
  with_logger : Logger → BaseOption
  authenticating : HttpAuthenticator → BaseOption
  client_on_before_request : Hook → BaseOption
  client_on_after_response : Hook → BaseOption
  client_on_client_error : Hook → BaseOption
  with_client_http_instrumenter : Option ℕ → BaseOption

-- Without an authenticator the function panics.
unfoldable pub with_authentication : Option HttpAuthenticator → Option BaseOption
with_authentication none = none
with_authentication (some auth) = some (authenticating auth)

-- A nil hook is the one that does nothing.
abbrev hook_or_no_op : Option ℕ → Hook
hook_or_no_op none = no_op
hook_or_no_op (some fn) = hook fn

unfoldable pub with_client_on_before_request : Option ℕ → BaseOption
with_client_on_before_request fn = client_on_before_request (hook_or_no_op fn)

unfoldable pub with_client_on_after_response : Option ℕ → BaseOption
with_client_on_after_response fn = client_on_after_response (hook_or_no_op fn)

unfoldable pub with_client_on_client_error : Option ℕ → BaseOption
with_client_on_client_error fn = client_on_client_error (hook_or_no_op fn)

unfoldable pub apply : BaseOption → Config → Config
apply (with_trace_provider x) c = record c { trace_provider = x }
apply (with_meter_provider x) c = record c { meter_provider = x }
apply (with_request_duration_buckets x) c = record c { request_duration_buckets = x }
apply (with_http_port x) c = record c { http_port = x }
apply (with_read_timeout x) c = record c { read_timeout = x }
apply (with_read_header_timeout x) c = record c { read_header_timeout = x }
apply (with_write_timeout x) c = record c { write_timeout = x }
apply (with_idle_timeout x) c = record c { idle_timeout = x }
apply (with_base_context x) c = record c { base_context = x }
apply (with_not_found_handler x) c = record c { not_found_handler = x }
apply (with_method_not_allowed_handler x) c = record c { method_not_allowed_handler = x }
apply (with_operations_http_port x) c = record c { operation_http_port = x }
apply with_metrics c = record c { metrics_enabled = true }
apply with_pprof c = record c { pprof_enabled = true }
apply with_health_checks c = record c { healthcheck_enabled = true }
apply (with_health_checks_base_path x) c = record c { healthcheck_base_path = x }
apply (with_logger x) c = record c { logger = x }
apply (authenticating x) c = record c { authenticator = some x }
apply (client_on_before_request x) c = record c { on_before_request = x }
apply (client_on_after_response x) c = record c { on_after_response = x }
apply (client_on_client_error x) c = record c { on_client_error = x }
apply (with_client_http_instrumenter x) c = record c { client_instrumenter = x }

unfoldable pub apply_all : List BaseOption → Config → Config
unfolding apply
apply_all [] c = c
apply_all (o ∷ os) c = apply_all os (apply o c)

unfoldable pub new_config : (Any → Option String) → LogState → List BaseOption → Config
unfolding apply_all default_config
new_config marshal s opts = apply_all opts (default_config marshal s)
