-- ===== src/Operations/Reach.antt =====
-- How far PUT /log/level reaches: to the loggers of the requests that are being served.
use yuna.Prelude.{
  ℕ, String, Bool, true, false, Option, none, some, List, ◌≡◌, refl, ap, sym, ◌∙◌, arith, inr,
  if◌then◌else◌,
}
use yuna.World.{World, emit, map_header, write_header, write, encode}
use yuna.Log.Level.{Level, Attr, parse_level}
use yuna.Log.Logger.{Logger, LogState, set_level, get_logger, level_of, with_attrs}
use yuna.Operations.{reply, set_levels, set_parsed, put_log_level}
use yuna.Middleware.RequestLog.Raced.{Shared, Raced}
use yuna.Middleware.RequestLog.Raced.Kept.{IsGrown, Raced-IsGrown}

reply-logs : (code : ℕ) (json : Option String) (w : World) → (reply code json w).logs ≡ w.logs
unfolding reply encode write write_header map_header
reply-logs code none w = refl
reply-logs code (some json) w = ground arith

level-set_levels :
    (logger : Logger) (lvl : Level) (s : LogState) → level_of logger (set_levels logger lvl s) ≡ lvl
unfolding set_levels set_level get_logger level_of
level-set_levels logger lvl s = ground arith

level-set_parsed :
    (response : String → Option String) (logger : Logger) (level : String) (p : Level × Bool)
    (w : World)
    → level_of logger (set_parsed response logger level p w).logs
      ≡ (if p.1 then level_of logger w.logs else p.0)
unfolding emit
level-set_parsed response logger level (lvl, true) w = ap (level_of logger) (reply-logs 400 _ w)
level-set_parsed response logger level (lvl, false) w =
    ap (level_of logger) (reply-logs 200 _ _) ∙ level-set_levels logger lvl w.logs

level-IsGrown :
    (attrs : ℕ → List Attr) (logger g : Logger) (s : LogState)
    → IsGrown attrs logger g
    → level_of g s ≡ level_of logger s
unfolding level_of with_attrs
level-IsGrown attrs logger g s (extra, e, h) = ap (λ x. s.cells x.level) e

-- While requests are served at once, in any interleaving, PUT /log/level with the name of a level
-- sets the level of the logger that a request in flight was given to that level; with another text it
-- leaves it as it was. This holds whether or not the answer can be sent.
pub put_level_reaches_requests :
    (attrs : ℕ → List Attr) (logger : Logger) (s : Shared) (i : ℕ) (g : Logger)
    (response : String → Option String) (level : String) (w : World)
    → Raced attrs logger s
    → (s.requests i).given ≡ some g
    → level_of g (put_log_level response logger (inr level) w).logs
      ≡ (if (parse_level level).1 then level_of g w.logs else (parse_level level).0)
unfolding put_log_level
put_level_reaches_requests attrs logger s i g response level w r e =
    let grown = Raced-IsGrown attrs logger s i g r e in
    level-IsGrown attrs logger g _ grown
    ∙ level-set_parsed response logger level (parse_level level) w
    ∙ ap (λ l. if (parse_level level).1 then l else (parse_level level).0)
        (sym (level-IsGrown attrs logger g w.logs grown))
