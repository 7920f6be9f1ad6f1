-- ===== src/Client/Tests.antt =====
-- A client with a hook on each event, and an exchange that ends in each way.
use yuna.Prelude.{
  pos, String, true, false, Option, none, some, [], ◌∷◌, ◌≡◌, refl, ltb, map, if◌then◌else◌,
}
use yuna.Otel.{Provider, no_provider, Provider, Instrument, made}
use yuna.Sample.{world, request}
use yuna.Options.{
  Config, hook, default_config, apply_all, client_on_before_request, client_on_after_response,
  client_on_client_error,
}
use yuna.Client.{
  Outside, RawRequest, RestyRequest, RestyResponse, record_request, record_client_error,
  record_dns_lookup, nil_pointer, before_request, path_or, templated_path,
}
use yuna.Client.Exchange.{
  answered, failed, not_sent, counts_of, calls_of, hook_calls, run_exchange, answered_counts_once,
  failed_counts, before_error_nil_pointer,
}
use yuna.Client.Instruments.{new_http_client_instrumenter, client_instruments, measure}
use yuna.Client.Fits.{all_fit, measurements_fit}
use yuna.Client.Default.{
  Given, answers, fresh, first_answer, later_answer, new_client, default_client_shared,
}

abbrev path_of : String → Option String
path_of url = some "/orders/{id}"

abbrev outside : Outside
outside = record {
  parse = path_of;
  before = λ n r. (r, none);
  after = λ n r resp. some "unexpected answer";
}

abbrev refusing : Outside
refusing = record outside { before = λ n r. (r, some "no token") }

abbrev conf : Config
conf =
    apply_all
      (client_on_before_request (hook 1)
        ∷ client_on_after_response (hook 2)
        ∷ client_on_client_error (hook 3)
        ∷ [])
      (default_config (λ a. none) world.logs)

abbrev resty_request : RestyRequest
resty_request = record { url = "http://orders/orders/{id}"; ctx = request.ctx; raw_request = none }

abbrev prepared : RestyRequest
prepared = (before_request outside conf resty_request).0

abbrev refused_request : RestyRequest
refused_request = (before_request refusing conf resty_request).0

abbrev raw : RawRequest
raw = record { method = "GET"; host = "orders" }

abbrev response : RestyResponse
response = record {
  status_code = 200;
  time = pos 1500;
  trace_info = record {
    total_time = pos 1500;
    dns_lookup = pos 100;
    tls_handshake = pos 0;
    conn_time = pos 200;
    is_conn_was_idle = false;
    is_conn_reused = false;
  };
}

answered_counts_once_example :
    counts_of (run_exchange outside conf resty_request (answered raw response))
    ≡ record_request "GET"
        (path_or resty_request.url (path_of resty_request.url))
        "orders"
        200
        (pos 1500)
      ∷ []
unfolding before_request apply_all default_config templated_path
answered_counts_once_example =
    answered_counts_once outside conf resty_request prepared raw response refl refl refl

abbrev unreadable : String
unreadable = "unexpected EOF"

failed_counts_run :
    calls_of (run_exchange outside conf resty_request (failed raw response unreadable)) ≡ (
      if ltb 0 response.status_code
      then []
      else record_client_error raw.host ∷ hook_calls conf.on_client_error)
unfolding before_request apply_all default_config
failed_counts_run = failed_counts outside conf resty_request prepared raw response unreadable refl

abbrev unused : String
unused = ""

before_error_nil_pointer_run :
    run_exchange refusing conf resty_request (not_sent unused) ≡ nil_pointer []
unfolding before_request apply_all default_config
before_error_nil_pointer_run =
    before_error_nil_pointer refusing conf resty_request refused_request (not_sent unused)
      "no token" refl refl

abbrev accepts : Provider → Instrument → Option String
accepts mp i = none

measurements_fit_run :
    all_fit (measure (record_dns_lookup (pos 100))) (client_instruments []) ≡ true
unfolding new_http_client_instrumenter yuna.Otel.make_all yuna.Otel.or_global
measurements_fit_run =
    measurements_fit accepts no_provider [] (client_instruments []) (record_dns_lookup (pos 100))
      refl

abbrev given : Given
given = record {
  marshal = λ a. none;
  transport = record { max_idle_conns_per_host = 2; max_idle_conns = 100; max_conns_per_host = 0 };
  meter = λ p i. none;
}

default_client_shared_run :
    answers given (world.logs ∷ world.logs ∷ []) fresh
    ≡ first_answer given (new_client given world.logs [])
      ∷ map (λ t. later_answer given (new_client given world.logs [])) (world.logs ∷ [])
default_client_shared_run = default_client_shared given world.logs (world.logs ∷ [])
