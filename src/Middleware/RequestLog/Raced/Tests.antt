-- ===== src/Middleware/RequestLog/Raced/Tests.antt =====
-- Two requests at once.
use yuna.Prelude.{String, Option, inr, ℕ, some, List, [], ◌∷◌, ◌≡◌, refl, eqb, if◌then◌else◌}
use yuna.Log.Level.{Attr, text, parse_level}
use yuna.Log.Logger.{with_attrs, level_of}
use yuna.Middleware.RequestLog.Raced.{Shared, Raced}
use yuna.Middleware.RequestLog.Raced.Kept.{IsGrown, Raced-IsGrown}
use yuna.Middleware.RequestLog.Raced.Lost.{race_loses_attributes}
use yuna.Operations.{put_log_level}
use yuna.Operations.Reach.{put_level_reaches_requests}
use yuna.Sample.{logger, world}

abbrev mine : Attr
mine = record { key = "request_id"; value = text "r-1" }

abbrev theirs : Attr
theirs = record { key = "request_id"; value = text "r-2" }

abbrev no_attrs : List Attr
no_attrs = []

abbrev added : ℕ → List Attr
added n = if eqb n 0 then mine ∷ [] else theirs ∷ []

race_loses_attributes_example :
    (s : Shared) × Raced added logger s
    × ((s.requests 0).given ≡ some (with_attrs (theirs ∷ []) logger))
race_loses_attributes_example = race_loses_attributes added logger 0 1 theirs no_attrs refl refl

lost :
    (s : Shared) × Raced added logger s
    × ((s.requests 0).given ≡ some (with_attrs (theirs ∷ []) logger))
lost = race_loses_attributes added logger 0 1 theirs no_attrs refl refl

Raced-IsGrown_example : IsGrown added logger (with_attrs (theirs ∷ []) logger)
Raced-IsGrown_example =
    Raced-IsGrown added logger lost.0 0 (with_attrs (theirs ∷ []) logger) lost.1 lost.2

abbrev answer : String → Option String
answer err = some err

put_level_reaches_requests_example :
    level_of
      (with_attrs (theirs ∷ []) logger)
      (put_log_level answer logger (inr "Debug") world).logs
    ≡ (if (parse_level "Debug").1
        then level_of (with_attrs (theirs ∷ []) logger) world.logs
        else (parse_level "Debug").0)
put_level_reaches_requests_example =
    put_level_reaches_requests added logger lost.0 0 (with_attrs (theirs ∷ []) logger) answer
      "Debug" world lost.1 lost.2
