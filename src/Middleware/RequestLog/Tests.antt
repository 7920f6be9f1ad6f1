-- ===== src/Middleware/RequestLog/Tests.antt =====
-- The request logger on two requests.
use yuna.Prelude.{String, List, [], ◌∷◌, ◌++◌, ◌≡◌}
use yuna.World.{Request, World}
use yuna.Sample.{request, world, logger, nothing}
use yuna.Middleware.RequestLog.Accumulated.{request_logger_accumulates, logger_after, attrs_of_all}

abbrev first_entry : List (String × String) → String
first_entry entries = "info"

abbrev two_requests : List (Request × World)
two_requests = (request, world) ∷ (request, world) ∷ []

request_logger_accumulates_example :
    (logger_after first_entry nothing two_requests logger).attrs
    ≡ logger.attrs ++ attrs_of_all first_entry two_requests
request_logger_accumulates_example =
    request_logger_accumulates first_entry nothing two_requests logger
