-- ===== src/Problem/Violations.antt =====
-- problem.go: `Violations.Add`.
use yuna.Prelude.{
  String, Option, none, some, List, [], ◌++◌, ◌==◌, ◌≡◌, arith, if◌then◌else◌, lookup, insert,
  lookup-insert, DistinctKeys, insert-DistinctKeys,
}
use yuna.Problem.{entries}
use yuna.Problem.Responses.{Violations}

-- The messages under a field; a field that is not there has none.
abbrev pub messages : Option (List String) → List String
messages none = []
messages (some errs) = errs

unfoldable pub add : String → List String → Violations → Violations
add field errs v = let m = entries v in some (insert field (messages (lookup field m) ++ errs) m)

abbrev pub messages_of : String → Violations → List String
messages_of field v = messages (lookup field (entries v))

-- `Add` appends the messages to those of the field, to none where the field or the whole map is not
-- there yet, and leaves every other field's messages as they were; fields that are there once stay
-- there once.
pub messages_of-add :
    (field other : String) (errs : List String) (v : Violations)
    → DistinctKeys (entries v)
    → (messages_of other (add field errs v)
        ≡ (if field == other then messages_of field v ++ errs else messages_of other v))
      × DistinctKeys (entries (add field errs v))
unfolding add
messages_of-add field other errs v d = (
  ground
      (arith, lookup-insert field other (messages (lookup field (entries v)) ++ errs) (entries v)),
  insert-DistinctKeys field _ (entries v) d,
)
