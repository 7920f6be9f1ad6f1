-- ===== src/Log/Level/Roundtrip.antt =====
-- Levels are read back as they are written.
use yuna.Prelude.{String, ◌≡◌, refl, ap, true, false, arith, List, [], ◌∷◌, any, ◌==◌, ◌↔◌}
use yuna.Text.{to_lower}
use yuna.Text.Case.{to_lower_idempotent}
use yuna.Log.Level.{
  Level, level_trace, level_debug, level_info, level_warn, level_error, level_panic, level_fatal,
  parse_lower, parse_level, level_name,
}

-- The levels that have a name of their own.
pub data Named : Level → Type 0 where
  trace : Named level_trace
  debug : Named level_debug
  info : Named level_info
  warn : Named level_warn
  error : Named level_error
  panic : Named level_panic
  fatal : Named level_fatal

-- The name that the formatter writes for a named level is read back as that level, with no error,
-- whatever slog's own names are.
pub parse_level-level_name :
    (name : Level → String) (l : Level) → Named l → parse_level (level_name name l) ≡ (l, false)
unfolding parse_level level_name to_lower
parse_level-level_name name l trace = refl
parse_level-level_name name l debug = refl
parse_level-level_name name l info = refl
parse_level-level_name name l warn = refl
parse_level-level_name name l error = refl
parse_level-level_name name l panic = refl
parse_level-level_name name l fatal = refl

abbrev pub level_names : List String
level_names = "trace" ∷ "debug" ∷ "info" ∷ "warn" ∷ "error" ∷ "panic" ∷ "fatal" ∷ []

parse_lower_fails_iff :
    (t : String) → (parse_lower t ≡ (level_info, true)) ↔ (any (λ n. t == n) level_names ≡ false)
unfolding parse_lower
parse_lower_fails_iff t = ground arith

-- Reading a level fails, with Info as the level, exactly on the texts that are none of the seven
-- names in lower case; and upper and lower case make no difference.
pub parse_level_fails_iff :
    (s : String)
    → ((parse_level s ≡ (level_info, true)) ↔ (any (λ n. to_lower s == n) level_names ≡ false))
      × (parse_level (to_lower s) ≡ parse_level s)
unfolding parse_level
parse_level_fails_iff s =
    (parse_lower_fails_iff (to_lower s), ap parse_lower (to_lower_idempotent s))
