-- ===== src/Client.antt =====
-- client.go: NewClient's hooks, which measure the exchanges of a resty client, and DefaultClient.
-- resty is not modelled: its requests and responses are records of what the hooks read.
pub mod Instruments
pub mod Fits
pub mod Exchange
pub mod Default
mod Tests
use yuna.Prelude.{
  ℕ, ℤ, pos, negsuc, String, Bool, true, false, Option, none, some, List, [], ◌∷◌, ◌++◌, ltb,
  if◌then◌else◌,
}
use yuna.Log.Logger.{LogState}
use yuna.Otel.{Provider}
use yuna.World.{
  Any, Context, ContextKey, ContextValue, context_key_resty_templated_path, a_path, value_of,
  with_value,
}
use yuna.Options.{Config, Hook, no_op, hook, BaseOption, new_config}

-- http.Request, as far as the hooks read it.
pub record RawRequest : Type 0 where
  pub method : String
  pub host : String

-- resty.Request: the raw request is nil until resty has made it.
pub record RestyRequest : Type 0 where
  pub url : String
  pub ctx : Context
  pub raw_request : Option RawRequest

-- resty.TraceInfo: all is zero without EnableTrace. Durations are in nanoseconds.
pub record TraceInfo : Type 0 where
  pub total_time : ℤ
  pub dns_lookup : ℤ
  pub tls_handshake : ℤ
  pub conn_time : ℤ
  pub is_conn_was_idle : Bool
  pub is_conn_reused : Bool

-- resty.Response: the status is zero where no response has come.
pub record RestyResponse : Type 0 where
  pub status_code : ℕ
  pub time : ℤ
  pub trace_info : TraceInfo

-- An error that resty reports: by itself, or wrapped in a ResponseError with a response or nil.
pub data RestyError : Type 0 where
  plain : String → RestyError
  response_error : Option RestyResponse → String → RestyError

-- A call of the instrumenter, or of a hook that the application gives.
pub data Call : Type 0 where
  record_request : String → String → String → ℕ → ℤ → Call
  record_client_error : String → Call
  record_dns_lookup : ℤ → Call
  record_tls_handshake : String → ℤ → Call
  record_conn_time : String → ℤ → Call
  record_conn_reuse : String → Bool → Call
  record_conn_idle : String → Bool → Call
  called : ℕ → Call

-- What a hook has called, with its error, or the nil pointer that it runs into.
pub data Hooked : Type 0 where
  ran : List Call → Option String → Hooked
  nil_pointer : List Call → Hooked

-- x > 0
abbrev pub is_positive : ℤ → Bool
is_positive (pos n) = ltb 0 n
is_positive (negsuc n) = false

-- The type assertion to a string, which is empty where it fails.
abbrev as_path : Option ContextValue → String
as_path (some (a_path p)) = p
as_path _ = ""

abbrev pub templated_path : Context → String
unfolding value_of
templated_path ctx = as_path (value_of context_key_resty_templated_path ctx.values)

-- url.Parse, by the path of the URL, or none on an error, and what the application's hooks do.
pub record Outside : Type 0 where
  pub parse : String → Option String
  pub before : ℕ → RestyRequest → RestyRequest × Option String
  pub after : ℕ → RestyRequest → RestyResponse → Option String

abbrev pub path_or : String → Option String → String
path_or url none = url
path_or url (some path) = path

abbrev pub run_before : Outside → Hook → RestyRequest → RestyRequest × Option String
run_before z no_op r = (r, none)
run_before z (hook n) r = z.before n r

-- The hook of OnBeforeRequest.
unfoldable pub before_request : Outside → Config → RestyRequest → RestyRequest × Option String
unfolding with_value
before_request z conf r =
    let path = path_or r.url (z.parse r.url) in
    let ctx = with_value context_key_resty_templated_path (a_path path) r.ctx in
    run_before z conf.on_before_request (record r { ctx = ctx })

abbrev record_if : Bool → Call → List Call
record_if true c = c ∷ []
record_if false c = []

unfoldable pub record_trace : String → TraceInfo → List Call
record_trace host t =
    if is_positive t.total_time
    then record_if (is_positive t.dns_lookup) (record_dns_lookup t.dns_lookup)
      ++ record_if (is_positive t.tls_handshake) (record_tls_handshake host t.tls_handshake)
      ++ record_if (is_positive t.conn_time) (record_conn_time host t.conn_time)
      ++ (record_conn_idle host t.is_conn_was_idle ∷ record_conn_reuse host t.is_conn_reused ∷ [])
    else []

abbrev pub run_after : Outside → Hook → RestyRequest → RestyResponse → List Call → Hooked
run_after z no_op r resp cs = ran cs none
run_after z (hook n) r resp cs = ran (cs ++ called n ∷ []) (z.after n r resp)

abbrev after_raw : Outside → Config → RestyRequest → RestyResponse → Option RawRequest → Hooked
unfolding record_trace
after_raw z conf r resp none = nil_pointer []
after_raw z conf r resp (some raw) = run_after z conf.on_after_response r resp (
    record_request raw.method (templated_path r.ctx) raw.host resp.status_code resp.time
    ∷ record_trace raw.host resp.trace_info)

-- The hook of OnAfterResponse.
unfoldable pub after_response : Outside → Config → RestyRequest → RestyResponse → Hooked
unfolding after_raw
after_response z conf r resp = after_raw z conf r resp r.raw_request

-- errors.As(err, &respErr) && respErr.Response != nil && respErr.Response.StatusCode() > 0
abbrev has_status : RestyError → Bool
has_status (response_error (some resp) e) = ltb 0 resp.status_code
has_status _ = false

abbrev pub run_error : Hook → List Call → Hooked
run_error no_op cs = ran cs none
run_error (hook n) cs = ran (cs ++ called n ∷ []) none

abbrev error_raw : Config → Option RawRequest → Hooked
error_raw conf none = nil_pointer []
error_raw conf (some raw) = run_error conf.on_client_error (record_client_error raw.host ∷ [])

-- The hook of OnError.
unfoldable pub on_error : Config → RestyRequest → RestyError → Hooked
on_error conf r err = if has_status err then ran [] none else error_raw conf r.raw_request
