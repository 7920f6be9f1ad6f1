-- ===== src/Problem/Members.antt =====
-- What the JSON object of a problem says: its members, in order, described apart from the writer.
pub mod Keys
use Prim.Native.String
use yuna.Prelude.{
  String, Bool, true, false, Option, none, some, List, [], ◌∷◌, ◌++◌, map, lookup, keys,
}
use yuna.Text.{sort}
use yuna.World.{Any, text, number}
use yuna.Problem.{ProblemDetails, entries, is_reserved, or_null, ◌>>=◌}

abbrev pub Member : Type 0
Member = String × Any

unfoldable pub unreserved : List String → List String
unreserved [] = []
unreserved (k ∷ ks) = elim (is_reserved k) [ true ↦ unreserved ks | false ↦ k ∷ unreserved ks ]

abbrev pub core : ProblemDetails → List Member
core p =
    ("type", text p.type_uri)
    ∷ ("title", text p.title)
    ∷ ("detail", text p.detail)
    ∷ ("instance", text p.instance_uri)
    ∷ ("status", number p.status_code)
    ∷ []

abbrev pub pick : List (String × Any) → String → Member
pick ext k = (k, or_null (lookup k ext))

-- The core members, and then the extensions whose key is not reserved, by their sorted keys.
unfoldable pub members : ProblemDetails → List Member
unfolding unreserved
members p =
    core p ++ map (pick (entries p.extensions)) (unreserved (sort (keys (entries p.extensions))))

-- "," and the member, for each of the texts.
unfoldable pub commas : List String → String
commas [] = ""
commas (t ∷ ts) = String.◌++◌ "," (String.◌++◌ t (commas ts))

-- The JSON object of the texts of its members.
unfoldable pub object : List String → String
unfolding commas
object [] = "{}"
object (t ∷ ts) = String.◌++◌ "{" (String.◌++◌ t (String.◌++◌ (commas ts) "}"))

module _ (marshal : Any → Option String) where
  -- The text of a member: it has none where the key or the value does not marshal.
  unfoldable pub member_text : Member → Option String
  member_text (k, v) = do
    kb ← marshal (text k)
    vb ← marshal v
    some (String.◌++◌ kb (String.◌++◌ ":" vb))

  unfoldable pub texts : List Member → Option (List String)
  unfolding member_text
  texts [] = some []
  texts (m ∷ ms) = do t ← member_text m; ts ← texts ms; some (t ∷ ts)

  unfoldable pub render : List Member → Option String
  unfolding texts object
  render ms = do ts ← texts ms; some (object ts)
