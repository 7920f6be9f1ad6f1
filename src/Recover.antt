-- ===== src/Recover.antt =====
-- recover.go: the middleware that turns a panic into a 500.
pub mod Caught
mod Tests
use yuna.Prelude.{String, Option, []}
use yuna.World.{
  Any, Request, World, Outcome, returned, panicked, Panic, abort_handler, Middleware, log_error,
}
use yuna.Problem.{serve}
use yuna.Problem.Responses.{internal_server_error}

-- The deferred function: recover() stops every panic, also http.ErrAbortHandler.
unfoldable pub deferred : (Any → Option String) → Request → Outcome → Outcome
deferred marshal r (returned w) = returned w
deferred marshal r (panicked abort_handler w) = returned w
deferred marshal r (panicked (Panic.other text) w) =
    returned (serve marshal (internal_server_error []) r (log_error r.ctx "panic recovered" w)).1

unfoldable pub recovery : (Any → Option String) → Middleware
unfolding deferred
recovery marshal next r w = deferred marshal r (next r w)
