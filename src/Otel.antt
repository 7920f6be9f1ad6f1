-- ===== src/Otel.antt =====
-- What the program gives to OpenTelemetry: the providers it is configured with, and the instruments
-- that it makes, whose buckets are in thousandths of a second.
use yuna.Prelude.{ℕ, String, Option, none, some, List, [], ◌∷◌}

-- A provider: nil, the global one, or one that the application gives.
pub data Provider : Type 0 where
  no_provider otel_global : Provider
  provider : ℕ → Provider

-- `if provider == nil { provider = otel.Get…Provider() }`
unfoldable pub or_global : Provider → Provider
or_global no_provider = otel_global
or_global p = p

pub data Kind : Type 0 where
  float64_histogram int64_counter int64_up_down_counter : Kind

pub record Instrument : Type 0 where
  pub kind : Kind
  pub name : String
  pub description : String
  pub unit : String
  pub buckets : List ℕ

-- What making instruments one after another comes to: all of them, or a panic with the error of
-- the first that the meter refuses.
pub data Made : Type 0 where
  made : List Instrument → Made
  refused : String → Made

abbrev and_then : Instrument → Made → Made
and_then i (made is) = made (i ∷ is)
and_then i (refused err) = refused err

abbrev pub after : Instrument → Option String → Made → Made
after i none rest = and_then i rest
after i (some err) rest = refused err

-- `meter` is the error of making an instrument with a provider's meter.
unfoldable pub make_all : (Instrument → Option String) → List Instrument → Made
make_all meter [] = made []
make_all meter (i ∷ is) = after i (meter i) (make_all meter is)
