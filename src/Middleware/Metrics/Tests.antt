-- ===== src/Middleware/Metrics/Tests.antt =====
-- The gauge around a handler that panics.
use yuna.World.{world_of}
use yuna.Prelude.{refl}
use yuna.Http.Conn.{fresh}
use yuna.Middleware.Metrics.{instrument_handler}
use yuna.Sample.{request, world, has, crash, pattern}
use yuna.Middleware.Metrics.Balance.{instrument_handler-Level, Level}

instrument_handler-Level_run :
    Level world (world_of (instrument_handler has pattern crash request fresh world))
instrument_handler-Level_run = instrument_handler-Level has pattern crash request fresh world refl
