-- ===== src/Problem/Tests.antt =====
-- Problems on concrete values.
use Prim.Native.String
use yuna.Prelude.{
  String, true, some, List, [], ◌∷◌, ◌++◌, lookup, keys, ◌≡◌, ◌∙◌, refl, arith, not, ◌&&◌, ◌==◌,
  ◌≢◌, DistinctKeys, eq_iff, eqb, if◌then◌else◌, insert, ◌||◌,
}
use yuna.Text.{trim_space}
use yuna.World.{text, conn_of, value}
use yuna.Problem.{
  ProblemDetails, entries, is_reserved, ◌>>=◌, marshal_json, default_status, default_instance,
  default_type, make_extensions, add_request_id, add_correlation_id, add_trace, fill, serve,
  problem,
}
use yuna.Problem.Members.{Member, members, render}
use yuna.Text.Order.{has, IsSorted, IsDistinct}
use yuna.Http.Header
use yuna.Http.Header.{Header, canonical, values_of}
use yuna.Http.Conn.{is_informational, body_allowed}
use yuna.Problem.Responses.{
  method_not_allowed, Violations, bad_request, unprocessable_entity, not_found,
}
use yuna.Problem.Serve.{fill_fields, serve_sent, cache_control}
use yuna.Problem.Json.{marshal_json-render}
use yuna.Problem.Members.Keys.{marshal_json-keys-IsDistinct, core_names}
use yuna.Problem.Serve.Allow.{method_not_allowed_allow}
use yuna.Problem.Responses.Dropped.{violations_dropped}
use yuna.Problem.Violations.{messages_of-add, messages_of, add}
use yuna.Sample.{marshal, request, request_header, world}

abbrev extended : ProblemDetails
extended = record (problem "Teapot" 418) {
  extensions = some (("z", text "1") ∷ ("title", text "2") ∷ ("a", value 3) ∷ []);
}

distinct : DistinctKeys (entries extended.extensions)
distinct = (
  ((λ e. ground (arith, e, eq_iff "title" "z")), ((λ e. ground (arith, e, eq_iff "a" "z")), tt)),
  (((λ e. ground (arith, e, eq_iff "a" "title")), tt), (tt, tt)),
)

marshal_json-render_example : marshal_json marshal extended ≡ render marshal (members extended)
marshal_json-render_example = marshal_json-render marshal extended

marshal_json-keys-IsDistinct_example :
    (ms : List Member) × (names : List String) × (marshal_json marshal extended ≡ render marshal ms)
    × (keys ms ≡ core_names ++ names)
    × IsDistinct (keys ms)
    × IsSorted names
    × ((k : String)
        → has k names ≡ (has k (keys (entries extended.extensions)) && not (is_reserved k)))
marshal_json-keys-IsDistinct_example = marshal_json-keys-IsDistinct marshal extended distinct

abbrev not_found_json : String
not_found_json =
    "{\"type\":\"about:blank\",\"title\":\"Not Found\",\"detail\":\"The requested resource could not be found.\",\"instance\":\"/books\",\"status\":404,\"requestId\":\"r-1\",\"sampled\":true,\"traceId\":\"t-1\"}"

abbrev allowed : List String
allowed = "GET" ∷ "HEAD" ∷ []

abbrev not_allowed_json : String
not_allowed_json =
    "{\"type\":\"about:blank\",\"title\":\"Method Not Allowed\",\"detail\":\"The requested method is not allowed on this resource.\",\"instance\":\"/books\",\"status\":405,\"requestId\":\"r-1\",\"sampled\":true,\"traceId\":\"t-1\"}"

serve_sent_example :
    let c' = conn_of (serve marshal not_found request world).1.writer in
    (c'.status ≡ (fill world.request_header request not_found).status_code)
    × (values_of "Content-Type" c'.sent ≡ "application/problem+json" ∷ [])
    × (values_of "Cache-Control" c'.sent ≡ cache_control ∷ [])
    × (c'.body ≡ (conn_of world.writer).body ++ String.◌++◌ not_found_json "\n" ∷ [])
    × ((serve marshal not_found request world).1.events ≡ world.events)
unfolding marshal_json fill not_found is_informational body_allowed Header.get Header.canonical
    yuna.Problem.add_trace yuna.Problem.add_correlation_id yuna.Prelude.lookup
    yuna.Problem.add_request_id yuna.Problem.make_extensions yuna.Problem.default_type
    yuna.Problem.default_instance yuna.Problem.default_status keys yuna.Prelude.insert is_reserved
serve_sent_example = serve_sent marshal not_found request world not_found_json refl refl refl refl

fill_fields_run :
    ((fill request_header request extended).status_code
      ≡ (if eqb extended.status_code 0 then 500 else extended.status_code))
    × ((fill request_header request extended).instance_uri
        ≡ (if trim_space extended.instance_uri == "" then request.path else extended.instance_uri))
    × ((fill request_header request extended).type_uri
        ≡ (if trim_space extended.type_uri == "" then "about:blank" else extended.type_uri))
    × ((fill request_header request extended).title ≡ extended.title)
    × ((fill request_header request extended).detail ≡ extended.detail)
    × ((fill request_header request extended).headers ≡ extended.headers)
fill_fields_run = fill_fields request_header request extended

method_not_allowed_allow_run :
    let c' = conn_of (serve marshal (method_not_allowed allowed) request world).1.writer in
    (c'.status ≡ 405)
    × (values_of "Allow" c'.sent ≡ values_of "Allow" (conn_of world.writer).header ++ allowed)
unfolding marshal_json fill method_not_allowed Header.get Header.canonical keys add_trace insert
    add_correlation_id lookup add_request_id make_extensions default_type default_instance
    default_status is_reserved
method_not_allowed_allow_run =
    method_not_allowed_allow marshal allowed request world not_allowed_json refl refl

abbrev one : String × List String
one = ("title", "is empty" ∷ [])

abbrev two : String × List String
two = ("pages", "is negative" ∷ [])

abbrev no_violations : List (String × List String)
no_violations = []

abbrev messages_given : List String
messages_given = "is long" ∷ []

abbrev given_violations : Violations
given_violations = some (one ∷ [])

violations_dropped_example :
    ((serve marshal (bad_request (some (one ∷ no_violations))) request world).1
      ≡ (serve marshal (bad_request (some (two ∷ no_violations))) request world).1)
    × ((serve marshal (unprocessable_entity (some (one ∷ no_violations))) request world).1
        ≡ (serve marshal (unprocessable_entity (some (two ∷ no_violations))) request world).1)
violations_dropped_example =
    violations_dropped marshal one two no_violations no_violations request world

messages_of-add_run :
    (messages_of "pages" (add "title" messages_given given_violations) ≡ (
      if "title" == "pages"
      then messages_of "title" given_violations ++ messages_given
      else messages_of "pages" given_violations))
    × DistinctKeys (entries (add "title" messages_given given_violations))
messages_of-add_run = messages_of-add "title" "pages" messages_given given_violations (tt, tt)
