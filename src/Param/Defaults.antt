-- ===== src/Param/Defaults.antt =====
-- How the two ways to read a parameter agree.
use yuna.Prelude.{ℕ, ℤ, String, Bool, Option, none, some, List, [], ◌∷◌, ◌≡◌, refl}
use yuna.Param.{
  ParamValue, Parsed, parsed, missing_value, invalid, read, read_or, parse_bool, bool,
  bool_or_default, int, int_or_default, int64, int64_or_default, float64, float64_or_default,
  float32, float32_or_default, narrowed, or_default, of_option,
}

-- The value that was read, or else the default.
abbrev pub parsed_or : {A : Type 0} → A → Parsed A → A
parsed_or default (parsed a) = a
parsed_or default missing_value = default
parsed_or default invalid = default

or_default-of_option :
    {A : Type 0} (default : A) (o : Option A)
    → or_default default o ≡ parsed_or default (of_option o)
or_default-of_option default none = refl
or_default-of_option default (some a) = refl

read_or-read :
    {A : Type 0} (parse : String → Option A) (default : A) (vals : List String)
    → read_or parse default vals ≡ parsed_or default (read parse vals)
read_or-read parse default [] = refl
read_or-read parse default (v ∷ vs) = or_default-of_option default (parse v)

-- Each OrDefault method answers what the method without a default reads, and the default where that
-- one fails, for a value that is missing as for one that does not parse.
pub or_default_reads :
    {Float Float32 : Type 0} (atoi : String → Option ℤ) (parse_int : String → ℕ → ℕ → Option ℤ)
    (parse_float : String → ℕ → Option Float) (narrow : Float → Float32) (pv : ParamValue)
    (b : Bool) (i : ℤ) (x : Float) (y : Float32)
    → (bool_or_default b pv ≡ parsed_or b (bool pv))
      × (int_or_default atoi i pv ≡ parsed_or i (int atoi pv))
      × (int64_or_default parse_int i pv ≡ parsed_or i (int64 parse_int pv))
      × (float64_or_default parse_float narrow x pv ≡ parsed_or x (float64 parse_float narrow pv))
      × (float32_or_default parse_float narrow y pv ≡ parsed_or y (float32 parse_float narrow pv))
unfolding bool_or_default bool int_or_default int int64_or_default int64 float64_or_default float64
    float32_or_default float32
or_default_reads atoi parse_int parse_float narrow pv b i x y = (
  read_or-read parse_bool b pv.vals,
  read_or-read atoi i pv.vals,
  read_or-read (λ s. parse_int s 10 64) i pv.vals,
  read_or-read (λ s. parse_float s 64) x pv.vals,
  read_or-read (λ s. narrowed parse_float narrow (parse_float s 32)) y pv.vals,
)
