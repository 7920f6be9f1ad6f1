-- ===== src/Mime/Tests.antt =====
-- Media types on concrete texts.
use yuna.Prelude.{
  String, true, not, ◌&&◌, ◌||◌, Option, none, some, List, [], ◌∷◌, ◌==◌, ◌≡◌, refl, if◌then◌else◌,
}
use yuna.Http.Header
use yuna.Mime.{contains, normalize_media_types, has_no_body, consumes, unsupported}
use yuna.Mime.Normal.{normalize_media_types_lem, names}
use yuna.Text.Order.{IsDistinct}
use yuna.Sample.{marshal, request, world, nothing}
use yuna.Mime.Consumed.{consumes_decides, admits, Decided}

-- mime.ParseMediaType on the texts of the tests.
abbrev parse : String → Option String
parse s = if s == "" then none else some "application/json"

abbrev wildcard : List String
wildcard = " Application/* " ∷ []

abbrev types : List String
types = "Text/XML" ∷ wildcard

consumes_decides_example :
    Decided
      (has_no_body request.method
        || admits ("Text/XML" ∷ wildcard) (parse (Header.get "Content-Type" world.request_header)))
      nothing
      request
      world
      (consumes marshal parse ("Text/XML" ∷ wildcard) nothing request world)
consumes_decides_example =
    consumes_decides marshal parse "Text/XML" wildcard nothing request world refl

normalize_media_types_lem_run :
    IsDistinct (normalize_media_types types)
    × ((k : String) → contains k (normalize_media_types types) ≡ (names k types && not (k == "")))
normalize_media_types_lem_run = normalize_media_types_lem types

-- The wildcard takes JSON.
wildcard_takes : admits types (some "application/json") ≡ true
unfolding yuna.Text.to_lower yuna.Text.trim_space yuna.Mime.accepts
wildcard_takes = refl
