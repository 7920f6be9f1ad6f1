-- ===== src/Log/Logger/Tests.antt =====
-- Levels and loggers on concrete values.
use yuna.Prelude.{◌≡◌, true, false, arith, List, [], ◌∷◌, any, ◌==◌, ◌↔◌, ◌++◌}
use yuna.Text.{to_lower}
use yuna.Log.Level.{level_info, level_warn, parse_level, level_name, Attr, text}
use yuna.Log.Logger.{LogOption, level_of, set_level, new, with_writer, stderr, with_source}
use yuna.Sample.{name, logger, other, logs}
use yuna.Log.Level.Roundtrip.{parse_level-level_name, parse_level_fails_iff, warn, level_names}
use yuna.Log.Logger.Shared.{set_level_shared, derive, Derive, attrs, group}
use yuna.Log.Logger.Options.{with_writer_ignored}

abbrev debug_attr : List Attr
debug_attr = record { key = "a"; value = text "b" } ∷ []

abbrev some_attrs : List Derive
some_attrs = attrs debug_attr ∷ group "g" ∷ []

abbrev no_attrs : List Derive
no_attrs = []

abbrev source_option : List LogOption
source_option = with_source ∷ []

parse_level-level_name_example : parse_level (level_name name level_warn) ≡ (level_warn, false)
parse_level-level_name_example = parse_level-level_name name level_warn warn

parse_level_fails_iff_run :
    ((parse_level "Loud" ≡ (level_info, true))
      ↔ (any (λ n. to_lower "Loud" == n) level_names ≡ false))
    × (parse_level (to_lower "Loud") ≡ parse_level "Loud")
parse_level_fails_iff_run = parse_level_fails_iff "Loud"

set_level_shared_run :
    let s' = set_level level_warn (derive some_attrs logger) logs in
    (level_of (derive no_attrs logger) s' ≡ level_warn) × (level_of other s' ≡ level_of other logs)
set_level_shared_run =
    set_level_shared some_attrs no_attrs logger other level_warn logs (λ e. ground (arith, e))

with_writer_ignored_run :
    (new name (source_option ++ with_writer 4 ∷ []) logs ≡ new name source_option logs)
    × ((new name source_option logs).0.settings.output ≡ stderr)
with_writer_ignored_run = with_writer_ignored name source_option 4 logs
