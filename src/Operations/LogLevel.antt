-- ===== src/Operations/LogLevel.antt =====
-- What the /log/level endpoint changes.
use Prim.Native.String
use yuna.Prelude.{
  ℕ, String, Bool, true, false, Option, none, some, [], ◌∷◌, ◌++◌, ◌≡◌, ◌≢◌, refl, ap, ◌∙◌, arith,
  ◌⊎◌, inl, inr, if◌then◌else◌,
}
use yuna.Http.Header
use yuna.Http.Conn.{is_informational, body_allowed}
use yuna.World.{World, conn_of, emit}
use yuna.World.Sent.{IsUnsent, IsSent, send-encode}
use yuna.Log.Level.{Level, parse_level}
use yuna.Log.Logger.{Logger, LogState, set_level, get_logger, level_of}
use yuna.Operations.{reply, set_levels, put_log_level, set_parsed, set_logs}

set_levels-level_of :
    (logger : Logger) (lvl : Level) (s : LogState)
    → (level_of logger (set_levels logger lvl s) ≡ lvl)
      × (level_of s.global (set_levels logger lvl s) ≡ lvl)
unfolding set_levels set_level get_logger level_of
set_levels-level_of logger lvl s = (ground arith, ground arith)

set_levels-other :
    (logger other : Logger) (lvl : Level) (s : LogState)
    → other.level ≢ logger.level
    → other.level ≢ s.global.level
    → level_of other (set_levels logger lvl s) ≡ level_of other s
unfolding set_levels set_level get_logger level_of
set_levels-other logger other lvl s n m = ground arith

reply-IsSent :
    (code : ℕ) (json : String) (w : World)
    → IsUnsent w.writer
    → is_informational code ≡ false
    → body_allowed code ≡ true
    → IsSent
        (Header.set "Content-Type" "application/json")
        code
        (String.◌++◌ json "\n" ∷ [])
        w
        (reply code (some json) w)
unfolding reply
reply-IsSent code json w u i b =
    (send-encode (Header.set "Content-Type" "application/json") code json w u i b).0

-- For a body that decodes to the name of a level, on a connection that has sent nothing: the server's
-- logger and the global logger have this level, every logger with neither's level cell keeps its own,
-- and the client is sent 200.
pub put_log_level_sets :
    (response : String → Option String) (logger other : Logger) (level json : String) (lvl : Level)
    (w : World)
    → IsUnsent w.writer
    → parse_level level ≡ (lvl, false)
    → response "" ≡ some json
    → other.level ≢ logger.level
    → other.level ≢ w.logs.global.level
    → let w' = put_log_level response logger (inr level) w in
      (level_of logger w'.logs ≡ lvl)
      × (level_of w.logs.global w'.logs ≡ lvl)
      × (level_of other w'.logs ≡ level_of other w.logs)
      × ((conn_of w'.writer).status ≡ 200)
unfolding put_log_level emit is_informational body_allowed
put_log_level_sets response logger other level json lvl w u p e n m =
    let s = reply-IsSent 200 json (set_logs (set_levels logger lvl w.logs) w) u refl refl in
    let levels = set_levels-level_of logger lvl w.logs in
    rw p (
      rw e (
        ap (level_of logger) s.same_logs ∙ levels.0,
        ap (level_of w.logs.global) s.same_logs ∙ levels.1,
        ap (level_of other) s.same_logs ∙ set_levels-other logger other lvl w.logs n m,
        s.status,
      ))

-- The error of a body: that of decoding it, or the one for a text that names no level.
abbrev pub error_of : String ⊎ String → Option String
error_of (inl err) = some err
error_of (inr level) =
    if (parse_level level).1 then some (String.◌++◌ "invalid log level: " level) else none

abbrev response_of : (String → Option String) → Option String → Option String
response_of f none = none
response_of f (some err) = f err

set_parsed-rejected :
    (response : String → Option String) (logger : Logger) (level err : String) (p : Level × Bool)
    (w : World)
    → (if p.1 then some (String.◌++◌ "invalid log level: " level) else none) ≡ some err
    → set_parsed response logger level p w ≡ reply 400 (response err) w
set_parsed-rejected response logger level err (lvl, true) w h =
    ap (λ o. reply 400 (response_of response o) w) h
set_parsed-rejected response logger level err (lvl, false) w h = ground (arith, h)

rejected :
    (response : String → Option String) (logger : Logger) (body : String ⊎ String) (err : String)
    (w : World)
    → error_of body ≡ some err
    → put_log_level response logger body w ≡ reply 400 (response err) w
unfolding put_log_level
rejected response logger (inl e) err w h = ap (λ o. reply 400 (response_of response o) w) h
rejected response logger (inr level) err w h =
    set_parsed-rejected response logger level err (parse_level level) w h

-- For a body that does not decode, or that decodes to a text that names no level, on a connection
-- that has sent nothing: no level is changed, nothing is logged, and the client is sent 400 with the
-- error.
pub put_log_level_rejects :
    (response : String → Option String) (logger : Logger) (body : String ⊎ String)
    (err json : String) (w : World)
    → IsUnsent w.writer
    → error_of body ≡ some err
    → response err ≡ some json
    → let w' = put_log_level response logger body w in
      (w'.logs ≡ w.logs)
      × (w'.events ≡ w.events)
      × ((conn_of w'.writer).status ≡ 400)
      × ((conn_of w'.writer).body ≡ (conn_of w.writer).body ++ String.◌++◌ json "\n" ∷ [])
unfolding is_informational body_allowed
put_log_level_rejects response logger body err json w u h j =
    let s = reply-IsSent 400 json w u refl refl in
    rw (rejected response logger body err w h) (rw j (s.same_logs, s.same_events, s.status, s.body))
