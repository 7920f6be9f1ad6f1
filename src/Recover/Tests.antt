-- ===== src/Recover/Tests.antt =====
-- Handlers that panic.
use yuna.World.{world_of}
use Prim.Native.String
use yuna.Prelude.{String, true, [], ◌∷◌, ◌++◌, ◌≡◌, refl, ◌∙◌}
use yuna.Http.Header.{values_of}
use yuna.World.{returned, logged, conn_of, logger_from_ctx}
use yuna.Log.Level.{level_error}
use yuna.Problem.{fill, marshal_json}
use yuna.Problem.Responses.{internal_server_error}
use yuna.Recover.{recovery}
use yuna.Sample.{marshal, request, world, crash, abort}
use yuna.Recover.Caught.{recovery_sends_500, recovery_stops_panics, recovery_swallows_abort}
use yuna.Problem
use yuna.Http.Header

abbrev error_json : String
error_json =
    "{\"type\":\"about:blank\",\"title\":\"Internal Server Error\",\"detail\":\"Server encountered an internal error processing the request. Please try again later.\",\"instance\":\"/books\",\"status\":500,\"requestId\":\"r-1\",\"sampled\":true,\"traceId\":\"t-1\"}"

recovery_sends_500_example :
    let out = world_of (recovery marshal crash request world) in
    ((conn_of out.writer).status ≡ 500)
    × (values_of "Content-Type" (conn_of out.writer).sent ≡ "application/problem+json" ∷ [])
    × ((conn_of out.writer).body ≡ (conn_of world.writer).body ++ String.◌++◌ error_json "\n" ∷ [])
    × (out.events
        ≡ world.events
          ++ logged (logger_from_ctx request.ctx world.logs) level_error "panic recovered" ∷ [])
unfolding marshal_json fill internal_server_error Header.get Header.canonical yuna.Problem.add_trace
    yuna.Problem.add_correlation_id yuna.Prelude.lookup yuna.Problem.add_request_id
    yuna.Problem.make_extensions yuna.Problem.default_type yuna.Problem.default_instance
    yuna.Problem.default_status yuna.Prelude.keys yuna.Prelude.insert yuna.Problem.is_reserved
recovery_sends_500_example =
    recovery_sends_500 marshal crash request world world "boom" error_json refl refl refl

recovery_stops_panics_run :
    recovery marshal crash request world
    ≡ returned (world_of (recovery marshal crash request world))
recovery_stops_panics_run = recovery_stops_panics marshal crash request world

recovery_swallows_abort_run : recovery marshal abort request world ≡ returned world
recovery_swallows_abort_run = recovery_swallows_abort marshal abort request world world refl
