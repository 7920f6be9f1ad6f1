-- ===== src/Operations.antt =====
-- yuna.go: the operations server's /log/level and /info endpoints, and RegisterHealthCheck.
pub mod LogLevel
pub mod Registered
pub mod Probe
pub mod Reach
pub mod Endpoints
pub mod Served
mod Tests
use Prim.Native.String
use yuna.Prelude.{
  ℕ, ℤ, String, Bool, true, false, not, Option, none, some, List, [], ◌∷◌, ◌⊎◌, inl, inr, eqb,
  if◌then◌else◌,
}
use yuna.Http.Names.{header_content_type}
use yuna.Mime.Names.{mime_application_json}
use yuna.Http.Header
use yuna.Log.Level.{Level, parse_level, level_info, level_warn}
use yuna.Log.Logger.{Logger, LogState, set_level, get_logger}
use yuna.Health.{ComponentRegistration, HealthcheckHandler, register}
use yuna.World.{
  Request, World, Outcome, returned, map_header, write_header, encode, emit, Event, logged,
}

abbrev pub set_logs : LogState → World → World
set_logs s w = record w { logs = s }

-- The header, the status line and the body of an answer; the error of Encode is dropped.
unfoldable pub reply : ℕ → Option String → World → World
unfolding map_header write_header encode
reply code json w =
    (encode json
      (write_header code (map_header (Header.set header_content_type mime_application_json) w))).0

-- z.logger and then the global logger
unfoldable pub set_levels : Logger → Level → LogState → LogState
unfolding set_level get_logger
set_levels logger lvl s = let s = set_level lvl logger s in set_level lvl (get_logger s) s

-- `response` is json.Marshal of the answer, by its error, which is empty on success; `logger` is
-- z.logger.
module _ (response : String → Option String) (logger : Logger) where
  abbrev pub set_parsed : String → Level × Bool → World → World
  set_parsed level (lvl, true) w = reply 400 (response (String.◌++◌ "invalid log level: " level)) w
  set_parsed level (lvl, false) w =
      emit (logged logger level_info (String.◌++◌ "Log Level is now set to " level))
        (reply 200 (response "") (set_logs (set_levels logger lvl w.logs) w))

  -- `payload` is the level in the body, or the error of decoding the body.
  unfoldable pub put_log_level : String ⊎ String → World → World
  unfolding reply set_levels emit
  put_log_level (inl err) w = reply 400 (response err) w
  put_log_level (inr level) w = set_parsed level (parse_level level) w

-- `build_info` is debug.ReadBuildInfo as JSON, where there is one.
unfoldable pub info : Option (Option String) → World → World
unfolding reply write_header
info none w = write_header 204 w
info (some json) w = reply 200 json w

-- One second, in nanoseconds.
abbrev pub second : ℕ
second = 1000000000

unfoldable pub settle_timeout : ComponentRegistration → ComponentRegistration
settle_timeout c = if eqb c.timeout 0 then record c { timeout = second } else c

abbrev warn_unless : Bool → Logger → String → World → World
warn_unless b logger msg w = if b then w else emit (logged logger level_warn msg) w

-- RegisterHealthCheck: `enabled` is conf.healthcheckEnabled, and `logger` is z.logger.
unfoldable pub register_health_check :
    Logger → Bool → ComponentRegistration → HealthcheckHandler × World → HealthcheckHandler × World
unfolding settle_timeout register emit
register_health_check logger enabled c (h, w) =
    let w =
      warn_unless enabled logger
        "Health checks are not enabled. This operation will have no impact." w in
    let w =
      warn_unless (not (eqb c.timeout 0)) logger
        (String.◌++◌ "Health check " (String.◌++◌ c.name " has no timeout. Setting to 1 second."))
        w in
    (register (settle_timeout c) h, w)
