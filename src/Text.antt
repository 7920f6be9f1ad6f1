-- ===== src/Text.antt =====
-- What the program uses of Go's `strings` and `sort` packages, over the code points of a text.
-- Letter case and white space are those of ASCII: any other code point is its own lower and upper
-- case, and is not trimmed.
pub mod Case
pub mod Order
pub mod Split
use Prim.Native.Char.{Char, char, code, IsScalar}
use Prim.Native.String
use Prim.Native.Nat.{compare, Ordering}
use mathlib.Core.Logic.{dite}
use native.Mathlib.Decide.{dec_lt}
use yuna.Prelude.{
  ℕ, ◌+◌, ◌-◌, ◌<◌, String, Bool, true, false, ◌&&◌, ◌||◌, List, [], ◌∷◌, ◌≡◌, ◌==◌, arith, leb,
  eqb, if◌then◌else◌,
}

IsScalar-of_lt : (n : ℕ) → compare n 55296 ≡ Ordering.lt → IsScalar n
IsScalar-of_lt n e = rw e tt

pub IsScalar-of_ascii : (n : ℕ) → n < 128 → IsScalar n
IsScalar-of_ascii n h = IsScalar-of_lt n (ground arith)

-- The character of an ASCII code.
ascii : (n : ℕ) → n < 128 → Char
ascii n h = char n (IsScalar-of_ascii n h)

unfoldable pub is_upper : Char → Bool
is_upper c = leb b'A' (code c) && leb (code c) b'Z'

unfoldable pub is_lower : Char → Bool
is_lower c = leb b'a' (code c) && leb (code c) b'z'

-- unicode.ToLower and unicode.ToUpper
unfoldable pub lower_char : Char → Char
unfolding is_upper ascii dec_lt
lower_char c =
    dite (dec_lt (code c + 32) 128) (λ h. if is_upper c then ascii (code c + 32) h else c) (λ _. c)

unfoldable pub upper_char : Char → Char
unfolding is_lower ascii dec_lt
upper_char c =
    dite (dec_lt (code c - 32) 128) (λ h. if is_lower c then ascii (code c - 32) h else c) (λ _. c)

-- strings.ToLower
unfoldable pub to_lower : String → String
unfolding lower_char
to_lower String.[] = ""
to_lower (String.◌∷◌ c s) = String.◌∷◌ (lower_char c) (to_lower s)

-- '\t', '\n', '\v', '\f', '\r' and ' '
unfoldable pub is_space : Char → Bool
is_space c = (leb 9 (code c) && leb (code c) 13) || eqb (code c) 32

unfoldable pub trim_left : String → String
unfolding is_space
trim_left String.[] = ""
trim_left (String.◌∷◌ c s) = if is_space c then trim_left s else String.◌∷◌ c s

-- What is left of a text whose tail is trimmed already.
abbrev trim_cons : Char → String → String
unfolding is_space
trim_cons c String.[] = if is_space c then "" else String.◌∷◌ c ""
trim_cons c (String.◌∷◌ d s) = String.◌∷◌ c (String.◌∷◌ d s)

unfoldable pub trim_right : String → String
unfolding trim_cons
trim_right String.[] = ""
trim_right (String.◌∷◌ c s) = trim_cons c (trim_right s)

-- strings.TrimSpace
unfoldable pub trim_space : String → String
unfolding trim_left trim_right
trim_space s = trim_right (trim_left s)

-- strings.HasPrefix
unfoldable pub has_prefix : String → String → Bool
has_prefix s String.[] = true
has_prefix String.[] (String.◌∷◌ d t) = false
has_prefix (String.◌∷◌ c s) (String.◌∷◌ d t) = eqb (code c) (code d) && has_prefix s t

-- strings.HasSuffix
unfoldable pub has_suffix : String → String → Bool
has_suffix String.[] t = "" == t
has_suffix (String.◌∷◌ c s) t = String.◌∷◌ c s == t || has_suffix s t

-- strings.SplitN(s, sep, 2)[0], for a separator of one character: the part before the first
-- separator, or all of `s`.
unfoldable pub before : ℕ → String → String
before sep String.[] = ""
before sep (String.◌∷◌ c s) = if eqb (code c) sep then "" else String.◌∷◌ c (before sep s)

-- s <= t, in the order of code points (which is that of the UTF-8 bytes)
unfoldable pub str_leb : String → String → Bool
str_leb String.[] t = true
str_leb (String.◌∷◌ c s) String.[] = false
str_leb (String.◌∷◌ c s) (String.◌∷◌ d t) = elim (compare (code c) (code d)) [
  | Ordering.lt ↦ true
  | Ordering.eq ↦ str_leb s t
  | Ordering.gt ↦ false
]

-- sort.Strings: its result is the one sorted rearrangement, whatever the algorithm.
unfoldable pub insert_sorted : String → List String → List String
insert_sorted k [] = k ∷ []
insert_sorted k (j ∷ js) = if str_leb k j then k ∷ j ∷ js else j ∷ insert_sorted k js

unfoldable pub sort : List String → List String
unfolding insert_sorted str_leb
sort [] = []
sort (k ∷ ks) = insert_sorted k (sort ks)
