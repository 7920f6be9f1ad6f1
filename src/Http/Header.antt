-- ===== src/Http/Header.antt =====
-- http.Header: a map from canonical keys to lists of values.
pub mod Laws
use Prim.Native.Char.{Char, code}
use yuna.Prelude.{
  ℕ, String, Bool, true, false, ◌&&◌, ◌||◌, Option, none, some, List, [], ◌∷◌, ◌++◌, ◌==◌, leb, eqb,
  if◌then◌else◌, lookup, insert,
}
use yuna.Text.{is_upper, is_lower, upper_char, lower_char}

abbrev pub Header : Type 0
Header = List (String × List String)

-- The bytes that a field name may hold (RFC 9110's token).
is_token : Char → Bool
unfolding is_upper is_lower
is_token c =
    is_upper c
    || is_lower c
    || (leb b'0' (code c) && leb (code c) b'9')
    || eqb (code c) 33
    || (leb 35 (code c) && leb (code c) 39)
    || eqb (code c) 42
    || eqb (code c) 43
    || eqb (code c) 45
    || eqb (code c) 46
    || (leb 94 (code c) && leb (code c) 96)
    || eqb (code c) 124
    || eqb (code c) 126

all_token : String → Bool
unfolding is_token
all_token String.[] = true
all_token (String.◌∷◌ c s) = is_token c && all_token s

capitalize : Bool → String → String
unfolding upper_char lower_char
capitalize upper String.[] = ""
capitalize upper (String.◌∷◌ c s) =
    String.◌∷◌ (if upper then upper_char c else lower_char c) (capitalize (eqb (code c) b'-') s)

-- textproto.CanonicalMIMEHeaderKey: a name with other bytes stays as it is.
unfoldable pub canonical : String → String
unfolding all_token capitalize
canonical s = if all_token s then capitalize true s else s

abbrev pub first : Option (List String) → String
first none = ""
first (some []) = ""
first (some (v ∷ vs)) = v

abbrev pub values : Option (List String) → List String
values none = []
values (some vs) = vs

-- h.Values(key)
unfoldable pub values_of : String → Header → List String
values_of key h = values (lookup (canonical key) h)

-- h.Get(key)
unfoldable pub get : String → Header → String
get key h = first (lookup (canonical key) h)

-- h.Set(key, value)
unfoldable pub set : String → String → Header → Header
set key value h = insert (canonical key) (value ∷ []) h

-- h.Add(key, value)
unfoldable pub add : String → String → Header → Header
add key value h = insert (canonical key) (values (lookup (canonical key) h) ++ value ∷ []) h
