-- ===== src/App/Named/Tests.antt =====
-- A missing page, for a request that brings its id.
use Prim.Native.String
use yuna.Prelude.{String, some, [], ◌∷◌, ◌++◌, ◌≡◌, refl, lookup}
use yuna.Http.Header
use yuna.Http.Header.{values_of}
use yuna.Http.Conn.{is_informational, body_allowed}
use yuna.World.{text, conn_of, world_of}
use yuna.Problem.{fill, marshal_json}
use yuna.Problem.Members.{members}
use yuna.Problem.Responses.{not_found}
use yuna.Middleware.Trace.{annotated, annotate}
use yuna.Middleware.Trace.Headers.{request_id}
use yuna.App.Named.{problem_handler, problem_names_request}
use yuna.Sample.{marshal, request, world}

abbrev json : String
json =
    "{\"type\":\"about:blank\",\"title\":\"Not Found\",\"detail\":\"The requested resource could not be found.\",\"instance\":\"/books\",\"status\":404,\"requestId\":\"r-1\",\"sampled\":true,\"traceId\":\"t-1\"}"

problem_names_request_example :
    let id = request_id "u-1" world.request_header in
    let w' = world_of (annotate "u-1" (problem_handler marshal not_found) request world) in
    let c' = conn_of w'.writer in
    (values_of "X-Request-ID" c'.sent ≡ id ∷ [])
    × (lookup "requestId"
          (members (fill (annotated "u-1" request world).request_header request not_found))
        ≡ some (text id))
    × (c'.body ≡ (conn_of world.writer).body ++ String.◌++◌ json "\n" ∷ [])
unfolding marshal_json fill not_found is_informational body_allowed Header.get Header.canonical
    yuna.Problem.add_trace yuna.Problem.add_correlation_id yuna.Prelude.lookup
    yuna.Problem.add_request_id yuna.Problem.make_extensions yuna.Problem.default_type
    yuna.Problem.default_instance yuna.Problem.default_status yuna.Prelude.keys yuna.Prelude.insert
    yuna.Problem.is_reserved annotated
problem_names_request_example =
    problem_names_request marshal "u-1" not_found request world json refl refl refl refl refl refl
