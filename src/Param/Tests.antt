-- ===== src/Param/Tests.antt =====
-- Parameters on concrete values.
use yuna.Prelude.{
  ℕ, ℤ, String, Option, none, some, [], ◌∷◌, ◌==◌, ◌≡◌, if◌then◌else◌, pos, true, false,
}
use yuna.Param.{
  ParamValue, bool, bool_or_default, int, int_or_default, int64, int64_or_default, float64,
  float64_or_default, float32, float32_or_default,
}
use yuna.Param.Defaults.{or_default_reads, parsed_or}

-- Parsers for the tests: of numbers, and of floats as texts.
abbrev one_digit : String → Option ℤ
one_digit s = if s == "1" then some (pos 1) else none

abbrev one_digit_of : String → ℕ → ℕ → Option ℤ
one_digit_of s base size = one_digit s

abbrev as_text : String → ℕ → Option String
as_text s size = some s

abbrev same : String → String
same s = s

abbrev one_value : ParamValue
one_value = record { vals = "1" ∷ []; present = true }

or_default_reads_run :
    (bool_or_default false one_value ≡ parsed_or false (bool one_value))
    × (int_or_default one_digit (pos 7) one_value ≡ parsed_or (pos 7) (int one_digit one_value))
    × (int64_or_default one_digit_of (pos 7) one_value
        ≡ parsed_or (pos 7) (int64 one_digit_of one_value))
    × (float64_or_default as_text same "x" one_value
        ≡ parsed_or "x" (float64 as_text same one_value))
    × (float32_or_default as_text same "y" one_value
        ≡ parsed_or "y" (float32 as_text same one_value))
or_default_reads_run =
    or_default_reads one_digit one_digit_of as_text same one_value false (pos 7) "x" "y"
