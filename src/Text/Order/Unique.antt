-- ===== src/Text/Order/Unique.antt =====
-- A set of texts has one sorted list without repetitions: what `sort` makes of the keys of a map
-- does not depend on the order in which they came.
use Prim.Native.Char.{code}
use mathlib.Core.Path.{subst}
use text.Mathlib.TextEquality.{Char-path}
use yuna.Prelude.{◌≡◌, refl, sym, ap, arith, String, true, false, List, [], ◌∷◌, ◌==◌, eq_iff, ◌∙◌}
use yuna.Text.{str_leb, sort}
use yuna.Text.Order.{
  has, IsBelow, IsSorted, Fresh, IsDistinct, sort-IsSorted, sort-IsDistinct, any-sort,
}

pub str_leb_antisym : (s t : String) → str_leb s t ≡ true → str_leb t s ≡ true → s ≡ t
unfolding str_leb
str_leb_antisym String.[] String.[] h k = refl
str_leb_antisym String.[] (String.◌∷◌ d t) h k = cc
str_leb_antisym (String.◌∷◌ c s) String.[] h k = cc
str_leb_antisym (String.◌∷◌ c s) (String.◌∷◌ d t) h k =
    let both : (code c ≡ code d) × (s ≡ t) = ground (arith, str_leb_antisym s t) in
    cc (Char-path c d both.0, both.1)

str_leb-of_IsBelow :
    (k i : String) (js : List String) → IsBelow k js → has i js ≡ true → str_leb k i ≡ true
str_leb-of_IsBelow k i [] b h = cc
str_leb-of_IsBelow k i (j ∷ js) b h = ground (arith, eq_iff j i, str_leb-of_IsBelow k i js)

has-of_Fresh : (k : String) (js : List String) → Fresh k js → has k js ≡ false
has-of_Fresh k [] f = refl
has-of_Fresh k (j ∷ js) f = ground (arith, eq_iff j k, has-of_Fresh k js)

-- Where the heads are each in the other's list, each comes before the other.
heads_equal :
    (k j : String) (ks js : List String)
    → IsBelow k ks
    → IsBelow j js
    → has k (j ∷ js) ≡ true
    → has j (k ∷ ks) ≡ true
    → k ≡ j
heads_equal k j ks js b c h g = ground (
  arith,
  eq_iff j k,
  eq_iff k j,
  str_leb_antisym k j,
  str_leb-of_IsBelow k j ks b,
  str_leb-of_IsBelow j k js c,
)

has-tail :
    (i k : String) (ks js : List String)
    → Fresh k ks
    → Fresh k js
    → has i (k ∷ ks) ≡ has i (k ∷ js)
    → has i ks ≡ has i js
has-tail i k ks js f g h = ground (arith, eq_iff k i, has-of_Fresh k ks f, has-of_Fresh k js g)

pub sorted_unique :
    (ks js : List String)
    → IsSorted ks
    → IsSorted js
    → IsDistinct ks
    → IsDistinct js
    → ((k : String) → has k ks ≡ has k js)
    → ks ≡ js
sorted_unique [] [] s t d e h = refl
sorted_unique [] (j ∷ js) s t d e h = ground (arith, h j, eq_iff j j)
sorted_unique (k ∷ ks) [] s t d e h = ground (arith, h k, eq_iff k k)
sorted_unique (k ∷ ks) (j ∷ js) s t d e h =
    let same =
      heads_equal k j ks js s.0 t.0 (ground (arith, h k, eq_iff k k))
        (ground (arith, h j, eq_iff j j)) in
    let tails = sorted_unique ks js s.1 t.1 d.1 e.1 (λ i.
      has-tail i k ks js d.0 (subst (λ x. Fresh x js) (sym same) e.0)
        (h i ∙ ap (λ x. has i (x ∷ js)) (sym same))) in
    cc (same, tails)

pub sort_unique :
    (ks js : List String)
    → IsDistinct ks
    → IsDistinct js
    → ((k : String) → has k ks ≡ has k js)
    → sort ks ≡ sort js
sort_unique ks js d e h =
    sorted_unique (sort ks) (sort js) (sort-IsSorted ks) (sort-IsSorted js) (sort-IsDistinct ks d)
      (sort-IsDistinct js e)
      (λ k. any-sort (λ j. j == k) ks ∙ h k ∙ sym (any-sort (λ j. j == k) js))
