-- ===== src/Problem/Unordered.antt =====
-- The order in which `range` visits a Go map is not specified: `MarshalJSON` and `ServeHTTP` give the
-- same whatever it is. A map is a list of entries up to what lookup finds in it, as a quotient.
pub mod Served
mod Tests
use mathlib.Core.HLevel.{Discrete, hedberg}
use mathlib.Core.Option.{is_set}
use mathlib.Core.Quot
use mathlib.Core.Quot.{Quot}
use yuna.Prelude.{
  String, Bool, true, false, Option, none, some, List, [], ◌∷◌, ◌++◌, map, lookup, keys, insert,
  ◌≡◌, ◌∙◌, Bool-cases, inl, inr, refl, sym, ap, arith, ◌==◌, DistinctKeys, insert-DistinctKeys,
  lookup-insert, eq_iff, if◌then◌else◌,
}
use yuna.Text.{sort}
use yuna.Text.Order.{has}
use yuna.Text.Order.Unique.{sort_unique}
use yuna.World.{Any}
use yuna.Problem.{ProblemDetails, entries, marshal_json}
use yuna.Problem.Members.{members, pick, unreserved, core, render}
use yuna.Problem.Members.Keys.{DistinctKeys-IsDistinct}
use yuna.Problem.Json.{marshal_json-render}

-- The entries of a Go map in one of the orders in which they may be visited.
abbrev pub Listing : Type 0
Listing = (m : List (String × Any)) × DistinctKeys m

abbrev pub SameMap : List (String × Any) → List (String × Any) → Type 0
SameMap m n = (k : String) → lookup k m ≡ lookup k n

-- The Go map itself: it forgets the order.
abbrev pub GoMap : Type 0
GoMap = Quot {α = Listing} (λ a b. SameMap a.0 b.0)

abbrev pub with_extensions : List (String × Any) → ProblemDetails → ProblemDetails
with_extensions m p = record p { extensions = some m }

unfoldable pub is_present : Option Any → Bool
is_present none = false
is_present (some v) = true

pub has-keys : (k : String) (m : List (String × Any)) → has k (keys m) ≡ is_present (lookup k m)
unfolding keys lookup is_present
has-keys k [] = refl
has-keys k ((j, v) ∷ m) = ground (arith, has-keys k m)

sort-keys :
    (m n : List (String × Any))
    → DistinctKeys m
    → DistinctKeys n
    → SameMap m n
    → sort (keys m) ≡ sort (keys n)
sort-keys m n d e h =
    sort_unique (keys m) (keys n) (DistinctKeys-IsDistinct m d) (DistinctKeys-IsDistinct n e)
      (λ k. has-keys k m ∙ ap is_present (h k) ∙ sym (has-keys k n))

map-pick :
    (m n : List (String × Any)) (ks : List String) → SameMap m n → map (pick m) ks ≡ map (pick n) ks
map-pick m n [] h = refl
map-pick m n (k ∷ ks) h = cc (h k, map-pick m n ks h)

-- Two problems that differ in the order of their extensions at most.
pub record Alike (p q : ProblemDetails) : Type 0 where
  pub distinct : DistinctKeys (entries p.extensions)
  pub also_distinct : DistinctKeys (entries q.extensions)
  pub same : SameMap (entries p.extensions) (entries q.extensions)
  pub rest : with_extensions [] p ≡ with_extensions [] q

pub members-Alike : (p q : ProblemDetails) → Alike p q → members p ≡ members q
unfolding members
members-Alike p q a =
    let m = entries p.extensions in
    let n = entries q.extensions in
    let picked =
      ap (λ ks. map (pick m) (unreserved ks)) (sort-keys m n a.distinct a.also_distinct a.same)
      ∙ map-pick m n (unreserved (sort (keys n))) a.same in
    cc (ap core a.rest, picked)

module _ (marshal : Any → Option String) where
  pub marshal_json-Alike :
      (p q : ProblemDetails) → Alike p q → marshal_json marshal p ≡ marshal_json marshal q
  marshal_json-Alike p q a =
      marshal_json-render marshal p
      ∙ ap (render marshal) (members-Alike p q a)
      ∙ sym (marshal_json-render marshal q)

  String-discrete : Discrete String
  String-discrete s t = elim (Bool-cases (s == t)) [
    | inl e ↦ yes ((eq_iff s t).0 e)
    | inr e ↦ no (λ h. ground (arith, eq_iff s t, h))
  ]

  -- MarshalJSON of the problem with the map as its extensions.
  marshal_map : ProblemDetails → GoMap → Option String
  marshal_map p =
      Quot.lift (is_set (hedberg String-discrete))
        (λ m. marshal_json marshal (with_extensions m.0 p))
        (λ m n h.
          marshal_json-Alike _ _
            (record { distinct = m.1; also_distinct = n.1; same = h; rest = refl }))

  -- MarshalJSON is well defined on Go maps, which have no order: with a map as the extensions of a
  -- problem there is one text, or one failure, which MarshalJSON comes to in whatever order the
  -- entries of the map are visited.
  pub marshal_json_well_defined :
      (p : ProblemDetails) (q : GoMap)
      → (result : Option String) × ((m : Listing)
          → Quot.mk m ≡ q
          → marshal_json marshal (with_extensions m.0 p) ≡ result)
  unfolding marshal_map
  marshal_json_well_defined p q = (marshal_map p q, λ m e. ap (marshal_map p) e)
