-- ===== src/Text/Split.antt =====
-- What the program uses of Go's `strings` package to take a text apart: Split by one character,
-- TrimPrefix and TrimLeft by one character.
use Prim.Native.Char.{Char, code}
use Prim.Native.String
use yuna.Prelude.{
  ℕ, String, Bool, true, false, ◌||◌, List, [], ◌∷◌, ◌≡◌, refl, ap, ◌∙◌, arith, eqb, if◌then◌else◌,
}
use yuna.Text.{has_prefix}

abbrev pub cons_first : Char → List String → List String
cons_first c [] = String.◌∷◌ c "" ∷ []
cons_first c (p ∷ ps) = String.◌∷◌ c p ∷ ps

-- strings.Split, whose separator is the character of code `sep`: there is always a part.
unfoldable pub split : ℕ → String → List String
split sep String.[] = "" ∷ []
split sep (String.◌∷◌ c s) =
    let rest = split sep s in if eqb (code c) sep then "" ∷ rest else cons_first c rest

-- strings.TrimPrefix: `drop_text` drops as many characters as the prefix has.
abbrev pub drop_text : String → String → String
drop_text s String.[] = s
drop_text String.[] (String.◌∷◌ d p) = ""
drop_text (String.◌∷◌ c s) (String.◌∷◌ d p) = drop_text s p

unfoldable pub trim_prefix : String → String → String
unfolding has_prefix
trim_prefix s p = if has_prefix s p then drop_text s p else s

-- strings.TrimLeft, whose cutset is one character.
unfoldable pub trim_left_of : ℕ → String → String
trim_left_of n String.[] = ""
trim_left_of n (String.◌∷◌ c s) = if eqb (code c) n then trim_left_of n s else String.◌∷◌ c s

-- Whether a character occurs.
abbrev pub has_char : ℕ → String → Bool
has_char n String.[] = false
has_char n (String.◌∷◌ c s) = eqb (code c) n || has_char n s

pub split-free : (sep : ℕ) (s : String) → has_char sep s ≡ false → split sep s ≡ s ∷ []
unfolding split
split-free sep String.[] h = refl
split-free sep (String.◌∷◌ c s) h = ground (arith, h, split-free sep s)

-- A part without the separator comes off the front.
pub split-part :
    (sep : ℕ) (p : String) (c : Char) (s : String)
    → has_char sep p ≡ false
    → eqb (code c) sep ≡ true
    → split sep (String.◌++◌ p (String.◌∷◌ c s)) ≡ p ∷ split sep s
unfolding split
split-part sep String.[] c s h e = rw (String.append.nil (String.◌∷◌ c s)) (ground (arith, e))
split-part sep (String.◌∷◌ d p) c s h e =
    rw (String.append.cons d p (String.◌∷◌ c s)) (ground (arith, h, split-part sep p c s))

pub split-at :
    (sep : ℕ) (p : String) (c : Char) (s : String)
    → has_char sep p ≡ false
    → eqb (code c) sep ≡ true
    → split sep (String.◌++◌ p (String.◌++◌ (String.◌∷◌ c "") s)) ≡ p ∷ split sep s
split-at sep p c s h e =
    ap (λ t. split sep (String.◌++◌ p t))
      (String.append.cons c "" s ∙ ap (String.◌∷◌ c) (String.append.nil s))
    ∙ split-part sep p c s h e

pub has_char-append :
    (n : ℕ) (s t : String) → has_char n (String.◌++◌ s t) ≡ (has_char n s || has_char n t)
has_char-append n String.[] t = rw (String.append.nil t) (ground arith)
has_char-append n (String.◌∷◌ c s) t =
    rw (String.append.cons c s t) (ground (arith, has_char-append n s t))

has_prefix-append : (p s : String) → has_prefix (String.◌++◌ p s) p ≡ true
unfolding has_prefix
has_prefix-append String.[] s = refl
has_prefix-append (String.◌∷◌ c p) s =
    rw (String.append.cons c p s) (ground (arith, has_prefix-append p s))

drop_text-append : (p s : String) → drop_text (String.◌++◌ p s) p ≡ s
drop_text-append String.[] s = rw (String.append.nil s) refl
drop_text-append (String.◌∷◌ c p) s = rw (String.append.cons c p s) (drop_text-append p s)

pub trim_prefix-append : (p s : String) → trim_prefix (String.◌++◌ p s) p ≡ s
unfolding trim_prefix
trim_prefix-append p s = rw (has_prefix-append p s) (drop_text-append p s)
