-- ===== src/Prelude/Maps.antt =====
-- A Go map with string keys, as an association list: `insert` is `m[k] = v`, `lookup` is
-- `v, ok := m[k]`. The order of the list stands for one order in which `range` may visit the map.
use Prim.Native.String.{String}
use mathlib.Core.Path.{◌≡◌, refl}
use mathlib.Core.Logic.{◌≢◌}
use mathlib.Core.Option.{Option, none, some}
use mathlib.Core.List.{List, [], ◌∷◌, map}
use native.Mathlib.Omega.{arith}
use text.Mathlib.Text.{◌==◌}
use text.Mathlib.TextEquality.{eq_iff}
use yuna.Prelude.Tests.{if◌then◌else◌}

abbrev Entries {ℓ} : Type ℓ → Type ℓ
Entries V = List (String × V)

module _ {ℓ} {V : Type ℓ} where
  unfoldable pub insert : String → V → Entries V → Entries V
  insert key value [] = (key, value) ∷ []
  insert key value ((present, old) ∷ rest) =
      if present == key then (key, value) ∷ rest else (present, old) ∷ insert key value rest

  unfoldable pub keys : Entries V → List String
  keys m = map (λ e. e.0) m

  unfoldable pub lookup : String → Entries V → Option V
  lookup key [] = none
  lookup key ((present, value) ∷ rest) = if present == key then some value else lookup key rest

  pub lookup-insert :
      (changed asked : String) (value : V) (rest : Entries V)
      → lookup asked (insert changed value rest)
        ≡ (if changed == asked then some value else lookup asked rest)
  unfolding lookup insert
  lookup-insert changed asked value [] = refl
  lookup-insert changed asked value ((present, old) ∷ rest) = ground (
    arith,
    lookup-insert changed asked value rest,
    eq_iff changed asked,
    eq_iff present asked,
    eq_iff present changed,
  )

  -- No entry of the map has this key.
  abbrev pub NotIn : String → List (String × V) → Type 0
  NotIn k [] = Unit
  NotIn k ((j, v) ∷ m) = (j ≢ k) × NotIn k m

  -- A map has each key once.
  abbrev pub DistinctKeys : List (String × V) → Type 0
  DistinctKeys [] = Unit
  DistinctKeys ((k, v) ∷ m) = NotIn k m × DistinctKeys m

  pub insert-NotIn :
      (j k : String) (v : V) (m : List (String × V)) → k ≢ j → NotIn j m → NotIn j (insert k v m)
  unfolding insert
  insert-NotIn j k v [] ne h = (ne, tt)
  insert-NotIn j k v ((i, w) ∷ m) ne h = ground (arith, insert-NotIn j k v m ne h.1)

  pub insert-DistinctKeys :
      (k : String) (v : V) (m : List (String × V)) → DistinctKeys m → DistinctKeys (insert k v m)
  unfolding insert
  insert-DistinctKeys k v [] h = (tt, tt)
  insert-DistinctKeys k v ((i, w) ∷ m) h =
      ground (arith, eq_iff i k, insert-DistinctKeys k v m h.1, insert-NotIn i k v m)

  pub lookup_of_NotIn : (k : String) (m : List (String × V)) → NotIn k m → lookup k m ≡ none
  unfolding lookup
  lookup_of_NotIn k [] h = refl
  lookup_of_NotIn k ((j, v) ∷ m) h = ground (arith, eq_iff j k, lookup_of_NotIn k m h.1)
