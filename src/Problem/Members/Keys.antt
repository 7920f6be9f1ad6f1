-- ===== src/Problem/Members/Keys.antt =====
-- The keys of a problem's JSON object.
use yuna.Prelude.{
  String, Option, true, false, not, ◌&&◌, ◌==◌, List, [], ◌∷◌, ◌++◌, map, keys, ◌≡◌, ◌∙◌, refl, ap,
  arith, Bool-cases, inl, inr, All, All-append, NotIn, DistinctKeys, eq_iff,
}
use yuna.Text.{sort}
use yuna.Text.Order.{has, IsSorted, Fresh, IsDistinct, sort-IsSorted, sort-IsDistinct, any-sort}
use yuna.World.{Any}
use yuna.Problem.{ProblemDetails, entries, is_reserved, marshal_json}
use yuna.Problem.Members.{Member, pick, unreserved, members, render}
use yuna.Problem.Json.{marshal_json-render}

abbrev pub core_names : List String
core_names = "type" ∷ "title" ∷ "detail" ∷ "instance" ∷ "status" ∷ []

unreserved-All {ℓ} : (P : String → Type ℓ) (ks : List String) → All P ks → All P (unreserved ks)
unfolding unreserved
unreserved-All P [] h = tt
unreserved-All P (k ∷ ks) h = elim (Bool-cases (is_reserved k)) [
  | inl e ↦ rw (e, unreserved) (unreserved-All P ks h.1)
  | inr e ↦ rw (e, unreserved) (h.0, unreserved-All P ks h.1)
]

unreserved-IsSorted : (ks : List String) → IsSorted ks → IsSorted (unreserved ks)
unfolding unreserved
unreserved-IsSorted [] h = tt
unreserved-IsSorted (k ∷ ks) h = elim (Bool-cases (is_reserved k)) [
  | inl e ↦ rw (e, unreserved) (unreserved-IsSorted ks h.1)
  | inr e ↦ rw (e, unreserved) (unreserved-All _ ks h.0, unreserved-IsSorted ks h.1)
]

unreserved-IsDistinct : (ks : List String) → IsDistinct ks → IsDistinct (unreserved ks)
unfolding unreserved
unreserved-IsDistinct [] h = tt
unreserved-IsDistinct (k ∷ ks) h = elim (Bool-cases (is_reserved k)) [
  | inl e ↦ rw (e, unreserved) (unreserved-IsDistinct ks h.1)
  | inr e ↦ rw (e, unreserved) (unreserved-All _ ks h.0, unreserved-IsDistinct ks h.1)
]

pub has-unreserved :
    (k : String) (ks : List String) → has k (unreserved ks) ≡ (has k ks && not (is_reserved k))
unfolding unreserved
has-unreserved k [] = refl
has-unreserved k (j ∷ ks) = ground (arith, has-unreserved k ks, eq_iff j k)

-- No core name is among the unreserved keys.
unreserved-Fresh : (k : String) (ks : List String) → is_reserved k ≡ true → Fresh k (unreserved ks)
unfolding unreserved
unreserved-Fresh k [] r = tt
unreserved-Fresh k (j ∷ ks) r = elim (Bool-cases (is_reserved j)) [
  | inl e ↦ rw (e, unreserved) (unreserved-Fresh k ks r)
  | inr e ↦ rw (e, unreserved) ((λ same. cc), unreserved-Fresh k ks r)
]

Fresh-of_has : (k : String) (ks : List String) → has k ks ≡ false → Fresh k ks
Fresh-of_has k [] h = tt
Fresh-of_has k (j ∷ ks) h = (λ e. ground (arith, eq_iff j k), Fresh-of_has k ks (ground arith))

Fresh-append :
    (k : String) (xs ks : List String)
    → has k xs ≡ false
    → is_reserved k ≡ true
    → Fresh k (xs ++ unreserved ks)
Fresh-append k xs ks h r = All-append _ xs _ (Fresh-of_has k xs h) (unreserved-Fresh k ks r)

core_names-IsDistinct :
    (ks : List String) → IsDistinct (unreserved ks) → IsDistinct (core_names ++ unreserved ks)
unfolding is_reserved
core_names-IsDistinct ks d = (
  Fresh-append "type" ("title" ∷ "detail" ∷ "instance" ∷ "status" ∷ []) ks refl refl,
  (
    Fresh-append "title" ("detail" ∷ "instance" ∷ "status" ∷ []) ks refl refl,
    (
      Fresh-append "detail" ("instance" ∷ "status" ∷ []) ks refl refl,
      (
        Fresh-append "instance" ("status" ∷ []) ks refl refl,
        (Fresh-append "status" [] ks refl refl, d),
      ),
    ),
  ),
)

NotIn-Fresh : (k : String) (m : List (String × Any)) → NotIn k m → Fresh k (keys m)
unfolding keys
NotIn-Fresh k [] h = tt
NotIn-Fresh k ((j, v) ∷ m) h = (h.0, NotIn-Fresh k m h.1)

pub DistinctKeys-IsDistinct : (m : List (String × Any)) → DistinctKeys m → IsDistinct (keys m)
unfolding keys
DistinctKeys-IsDistinct [] h = tt
DistinctKeys-IsDistinct ((k, v) ∷ m) h = (NotIn-Fresh k m h.0, DistinctKeys-IsDistinct m h.1)

keys-pick : (ext : List (String × Any)) (ks : List String) → keys (map (pick ext) ks) ≡ ks
unfolding keys
keys-pick ext [] = refl
keys-pick ext (k ∷ ks) = ap (λ r. k ∷ r) (keys-pick ext ks)

keys-members :
    (p : ProblemDetails)
    → keys (members p) ≡ core_names ++ unreserved (sort (keys (entries p.extensions)))
unfolding keys members
keys-members p =
    ap (λ r. core_names ++ r)
      (keys-pick (entries p.extensions) (unreserved (sort (keys (entries p.extensions)))))

-- Where the extensions have each key once, MarshalJSON returns the JSON object of members that have
-- each key once: their keys are the five core names and then the sorted keys of the extensions that
-- are not reserved, none left out. It fails where a member does not marshal.
pub marshal_json-keys-IsDistinct :
    (marshal : Any → Option String) (p : ProblemDetails)
    → DistinctKeys (entries p.extensions)
    → (ms : List Member) × (names : List String) × (marshal_json marshal p ≡ render marshal ms)
      × (keys ms ≡ core_names ++ names)
      × IsDistinct (keys ms)
      × IsSorted names
      × ((k : String) → has k names ≡ (has k (keys (entries p.extensions)) && not (is_reserved k)))
marshal_json-keys-IsDistinct marshal p d =
    let ks = keys (entries p.extensions) in
    let shape = keys-members p in
    (
      members p,
      unreserved (sort ks),
      marshal_json-render marshal p,
      shape,
      rw shape (
          core_names-IsDistinct (sort ks)
            (unreserved-IsDistinct (sort ks) (sort-IsDistinct ks (DistinctKeys-IsDistinct _ d)))),
      unreserved-IsSorted (sort ks) (sort-IsSorted ks),
      λ k.
          has-unreserved k (sort ks)
          ∙ ap (λ b. b && not (is_reserved k)) (any-sort (λ j. j == k) ks),
    )
