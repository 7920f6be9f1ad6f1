-- ===== src/Param.antt =====
-- param.go: the value of a query or path parameter; and the two ways of request.go to find one.
-- strconv's and uuid's parsers are parameters, with `none` for an error; the
-- value that comes with an error is left out.
pub mod Defaults
mod Tests
use yuna.Prelude.{
  ℕ, ℤ, pos, String, Bool, true, false, ◌||◌, Option, none, some, List, [], ◌∷◌, ◌==◌, eqb, length,
  lookup, if◌then◌else◌,
}

pub record ParamValue : Type 0 where
  pub vals : List String
  pub present : Bool

unfoldable pub is_present : ParamValue → Bool
is_present pv = pv.present

unfoldable pub values : ParamValue → List String
values pv = pv.vals

unfoldable pub len : ParamValue → ℕ
len pv = length pv.vals

unfoldable pub is_empty : ParamValue → Bool
is_empty pv = eqb (length pv.vals) 0

abbrev head : List String → Option String
head [] = none
head (v ∷ vs) = some v

-- `String`, which panics with an index out of range where there is no value.
unfoldable pub to_string : ParamValue → Option String
to_string pv = head pv.vals

abbrev first_or : String → List String → String
first_or default [] = default
first_or default (v ∷ vs) = if v == "" then default else v

unfoldable pub string_or_default : String → ParamValue → String
string_or_default default pv = first_or default pv.vals

unfoldable pub strings : ParamValue → List String
strings pv = pv.vals

-- A value, or why there is none.
pub data Parsed (A : Type 0) : Type 0 where
  parsed : A → Parsed A
  missing_value invalid : Parsed A

abbrev pub of_option : {A : Type 0} → Option A → Parsed A
of_option none = invalid
of_option (some a) = parsed a

abbrev pub or_default : {A : Type 0} → A → Option A → A
or_default default none = default
or_default default (some a) = a

-- What Bool, Int, Int64, Float64, Float32 and UUID share, and what the OrDefault methods share.
abbrev pub read : {A : Type 0} → (String → Option A) → List String → Parsed A
read parse [] = missing_value
read parse (v ∷ vs) = of_option (parse v)

abbrev pub read_or : {A : Type 0} → (String → Option A) → A → List String → A
read_or parse default [] = default
read_or parse default (v ∷ vs) = or_default default (parse v)

-- strconv.ParseBool
unfoldable pub parse_bool : String → Option Bool
parse_bool s =
    if s == "1" || s == "t" || s == "T" || s == "TRUE" || s == "true" || s == "True"
    then some true
    else if s == "0" || s == "f" || s == "F" || s == "FALSE" || s == "false" || s == "False"
    then some false
    else none

unfoldable pub bool : ParamValue → Parsed Bool
unfolding parse_bool
bool pv = read parse_bool pv.vals

unfoldable pub bool_or_default : Bool → ParamValue → Bool
unfolding parse_bool
bool_or_default default pv = read_or parse_bool default pv.vals

module _ (atoi : String → Option ℤ) where
  unfoldable pub int : ParamValue → Parsed ℤ
  int pv = read atoi pv.vals

  unfoldable pub int_or_default : ℤ → ParamValue → ℤ
  int_or_default default pv = read_or atoi default pv.vals

module _ (parse_int : String → ℕ → ℕ → Option ℤ) where
  unfoldable pub int64 : ParamValue → Parsed ℤ
  int64 pv = read (λ s. parse_int s 10 64) pv.vals

  unfoldable pub int64_or_default : ℤ → ParamValue → ℤ
  int64_or_default default pv = read_or (λ s. parse_int s 10 64) default pv.vals

-- `Float` is float64, and `narrow` the conversion to float32.
module _ {Float Float32 : Type 0} (parse_float : String → ℕ → Option Float)
    (narrow : Float → Float32) where
  unfoldable pub float64 : ParamValue → Parsed Float
  float64 pv = read (λ s. parse_float s 64) pv.vals

  unfoldable pub float64_or_default : Float → ParamValue → Float
  float64_or_default default pv = read_or (λ s. parse_float s 64) default pv.vals

  abbrev pub narrowed : Option Float → Option Float32
  narrowed none = none
  narrowed (some x) = some (narrow x)

  unfoldable pub float32 : ParamValue → Parsed Float32
  float32 pv = read (λ s. narrowed (parse_float s 32)) pv.vals

  unfoldable pub float32_or_default : Float32 → ParamValue → Float32
  float32_or_default default pv = read_or (λ s. narrowed (parse_float s 32)) default pv.vals

unfoldable pub uuid : {Uuid : Type 0} → (String → Option Uuid) → ParamValue → Parsed Uuid
uuid parse pv = read parse pv.vals

-- `Request.QueryParam`, on the query as net/url parses it.
abbrev found : Option (List String) → ParamValue
found none = record { vals = []; present = false }
found (some vals) = record { vals = vals; present = true }

unfoldable pub query_param : List (String × List String) → String → ParamValue
query_param query name = found (lookup name query)

-- `Request.PathParam`, on what chi.URLParamFromCtx answers.
unfoldable pub path_param : (String → String) → String → ParamValue
path_param url_param name =
    let val = url_param name in
    if val == ""
    then record { vals = []; present = false }
    else record { vals = val ∷ []; present = true }
