-- ===== src/Problem/Unordered/Tests.antt =====
-- The extensions of a problem visited in two orders.
use mathlib.Core.Path.{subst}
use mathlib.Core.Quot.{Quot}
use yuna.Prelude.{
  String, Option, List, [], ◌∷◌, lookup, ◌≡◌, refl, arith, DistinctKeys, eq_iff, ◌==◌, Bool-cases,
  inl, inr,
}
use yuna.World.{Any, text, value}
use yuna.Problem.{problem, serve, marshal_json}
use yuna.Problem.Unordered.{Listing, GoMap, with_extensions, marshal_json_well_defined}
use yuna.Problem.Unordered.Served.{serve_unordered}
use yuna.Sample.{marshal, request, world}

abbrev forth : List (String × Any)
forth = ("z", text "1") ∷ ("a", value 3) ∷ []

abbrev back : List (String × Any)
back = ("a", value 3) ∷ ("z", text "1") ∷ []

forth_distinct : DistinctKeys forth
forth_distinct = (((λ e. ground (arith, e, eq_iff "a" "z")), tt), (tt, tt))

back_distinct : DistinctKeys back
back_distinct = (((λ e. ground (arith, e, eq_iff "z" "a")), tt), (tt, tt))

same : (k : String) → lookup k forth ≡ lookup k back
unfolding lookup
same k = elim (Bool-cases ("z" == k)) [
  | inl e ↦ subst (λ x. lookup x forth ≡ lookup x back) ((eq_iff "z" k).0 e) refl
  | inr e ↦ rw e refl
]

abbrev the_map : GoMap
the_map = Quot.mk (forth, forth_distinct)

marshal_json_well_defined_example :
    (result : Option String) × ((m : Listing)
      → Quot.mk m ≡ the_map
      → marshal_json marshal (with_extensions m.0 (problem "Teapot" 418)) ≡ result)
marshal_json_well_defined_example = marshal_json_well_defined marshal (problem "Teapot" 418) the_map

serve_unordered_example :
    (serve marshal (with_extensions forth (problem "Teapot" 418)) request world).1
    ≡ (serve marshal (with_extensions back (problem "Teapot" 418)) request world).1
serve_unordered_example =
    serve_unordered marshal (problem "Teapot" 418) forth back request world forth_distinct
      back_distinct same
