-- ===== src/Log/Logger.antt =====
-- log/log.go and log/option.go: loggers, and the level cells that they share.
pub mod Shared
pub mod Options
mod Tests
use yuna.Prelude.{
  ℕ, suc, String, Bool, true, false, Option, none, some, List, [], ◌∷◌, ◌++◌, eqb, if◌then◌else◌,
}
use yuna.Log.Level.{
  Level, level_panic, level_fatal, Attr, text, default_log_level, parse_level, level_attr_formatter,
}
use yuna.Log.Attr.{ReplaceAttr, chain_replace_attr}

-- Where a handler writes: standard error, or a writer that the application gives.
pub data Output : Type 0 where
  stderr : Output
  writer : ℕ → Output

pub record Config : Type 0 where
  pub output : Output
  pub level : Level
  pub include_source : Bool
  pub replace_attr : Option ReplaceAttr

pub record Settings : Type 0 where
  pub output : Output
  pub add_source : Bool
  pub replace : ReplaceAttr

-- `level` is a pointer to a slog.LevelVar.
pub record Logger : Type 0 where
  pub settings : Settings
  pub attrs : List Attr
  pub groups : List String
  pub level : ℕ

-- The level cells, and the package's global logger.
pub record LogState : Type 0 where
  pub cells : ℕ → Level
  pub next : ℕ
  pub global : Logger

pub data LogOption : Type 0 where
  with_writer : ℕ → LogOption
  with_level : Level → LogOption
  with_source : LogOption
  with_replace_attr : Option ReplaceAttr → LogOption

unfoldable pub apply_option : LogOption → Config → Config
apply_option (with_writer w) c = record c { output = writer w }
apply_option (with_level lvl) c = record c { level = lvl }
apply_option with_source c = record c { include_source = true }
apply_option (with_replace_attr fn) c = record c { replace_attr = fn }

unfoldable pub apply_options : List LogOption → Config → Config
unfolding apply_option
apply_options [] c = c
apply_options (o ∷ os) c = apply_options os (apply_option o c)

abbrev pub update : (ℕ → Level) → ℕ → Level → ℕ → Level
update cells p lvl q = if eqb p q then lvl else cells q

-- `name` is slog's own name of a level.
module _ (name : Level → String) where
  unfoldable pub new_config : Config
  new_config = record {
    output = stderr;
    level = default_log_level;
    include_source = false;
    replace_attr = some (level_attr_formatter name);
  }

  unfoldable pub new : List LogOption → LogState → Logger × LogState
  unfolding apply_options new_config
  new opts s =
      let conf = apply_options opts new_config in
      (
        record {
          settings = record {
            output = stderr;
            add_source = conf.include_source;
            replace =
                chain_replace_attr (some (level_attr_formatter name) ∷ conf.replace_attr ∷ []);
          };
          attrs = [];
          groups = [];
          level = s.next;
        },
        record s { cells = update s.cells s.next conf.level; next = suc s.next },
      )

  -- `init`: `env` is YUNA_LOG_LEVEL, if it is set, and `source` is what YUNA_LOG_INCLUDE_SOURCE
  -- reads as. The first cell is the global logger's.
  abbrev pub level_of_env : Option String → Level
  level_of_env none = default_log_level
  level_of_env (some s) =
      let (lvl, failed) = parse_level s in if failed then default_log_level else lvl

  unfoldable pub init : Option String → Bool → LogState
  init env source = record {
    cells = λ _. level_of_env env;
    next = 1;
    global = record {
      settings = record {
        output = stderr;
        add_source = source;
        replace = level_attr_formatter name;
      };
      attrs = record { key = "logger"; value = text "yuna" } ∷ [];
      groups = [];
      level = 0;
    };
  }

unfoldable pub get_logger : LogState → Logger
get_logger s = s.global

-- `LoggerFromCtx`: `found` is the context's value under the logger's key.
unfoldable pub logger_from : Option Logger → LogState → Logger
logger_from none s = s.global
logger_from (some l) s = l

unfoldable pub with_attrs : List Attr → Logger → Logger
with_attrs args l = record l { attrs = l.attrs ++ args }

unfoldable pub with_group : String → Logger → Logger
with_group group l = record l { groups = l.groups ++ group ∷ [] }

-- The package's `With`, which replaces the global logger.
unfoldable pub with_global : List Attr → LogState → Logger × LogState
unfolding with_attrs
with_global args s = let l = with_attrs args s.global in (l, record s { global = l })

unfoldable pub level_of : Logger → LogState → Level
level_of l s = s.cells l.level

unfoldable pub set_level : Level → Logger → LogState → LogState
set_level lvl l s = record s { cells = update s.cells l.level lvl }

-- A record with its level and its message: what a logger is asked to write.
abbrev pub Record : Type 0
Record = Logger × Level × String

-- How a call ends that does not return: a panic with a message, or an exit of the process.
pub data Stop : Type 0 where
  panics : String → Stop
  exits : ℕ → Stop

-- Panic and PanicContext, and Fatal and FatalContext: the record, and then the stop.
unfoldable pub panic : Logger → String → List Record → Stop × List Record
panic l msg rs = (panics msg, rs ++ (l, level_panic, msg) ∷ [])

unfoldable pub fatal : Logger → String → List Record → Stop × List Record
fatal l msg rs = (exits 1, rs ++ (l, level_fatal, msg) ∷ [])
