-- ===== src/Log/Level.antt =====
-- log/level.go: the levels, and how they are read and written.
pub mod Roundtrip
use yuna.Prelude.{
  ℕ, String, Bool, true, false, Option, none, some, ◌==◌, ◌++◌, ℤ, pos, negsuc, eq_ℤ, if◌then◌else◌,
}
use yuna.Text.{to_lower}

abbrev pub Level : Type 0
Level = ℤ

abbrev pub level_trace : Level
level_trace = negsuc 4

abbrev pub level_debug : Level
level_debug = negsuc 3

abbrev pub level_info : Level
level_info = pos 0

abbrev pub level_warn : Level
level_warn = pos 4

abbrev pub level_error : Level
level_error = pos 8

abbrev pub level_panic : Level
level_panic = pos 10

abbrev pub level_fatal : Level
level_fatal = pos 12

abbrev pub default_log_level : Level
default_log_level = level_info

-- The switch of `ParseLevel`, and whether it returns an error.
unfoldable pub parse_lower : String → Level × Bool
parse_lower s =
    if s == "trace"
    then (level_trace, false)
    else if s == "debug"
    then (level_debug, false)
    else if s == "info"
    then (level_info, false)
    else if s == "warn"
    then (level_warn, false)
    else if s == "error"
    then (level_error, false)
    else if s == "panic"
    then (level_panic, false)
    else if s == "fatal"
    then (level_fatal, false)
    else (level_info, true)

unfoldable pub parse_level : String → Level × Bool
unfolding parse_lower
parse_level lvl = parse_lower (to_lower lvl)

-- What a slog.Value holds: a level, a text, or anything else.
pub data Value : Type 0 where
  level : Level → Value
  text : String → Value
  other : ℕ → Value

pub record Attr : Type 0 where
  pub key : String
  pub value : Value

-- The switch of `levelAttrFormatter`; `name` is slog's own name of a level.
unfoldable pub level_name : (Level → String) → Level → String
level_name name lv =
    if eq_ℤ lv level_trace
    then "TRACE"
    else if eq_ℤ lv level_debug
    then "DEBUG"
    else if eq_ℤ lv level_info
    then "INFO"
    else if eq_ℤ lv level_warn
    then "WARN"
    else if eq_ℤ lv level_error
    then "ERROR"
    else if eq_ℤ lv level_panic
    then "PANIC"
    else if eq_ℤ lv level_fatal
    then "FATAL"
    else name lv

abbrev format_value : (Level → String) → Value → Value
format_value name (level lv) = text (level_name name lv)
format_value name v = v

unfoldable pub level_attr_formatter : (Level → String) → Attr → Attr
unfolding level_name
level_attr_formatter name a =
    if a.key == "level" then record a { value = format_value name a.value } else a
