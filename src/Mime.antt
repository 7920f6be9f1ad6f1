-- ===== src/Mime.antt =====
-- mime.go: the media types that a route consumes.
pub mod Names
pub mod Normal
pub mod Consumed
mod Tests
use Prim.Native.String
use yuna.Prelude.{
  String, Bool, true, false, ◌&&◌, ◌||◌, Option, none, some, List, [], ◌∷◌, ◌++◌, ◌==◌, any,
  if◌then◌else◌,
}
use yuna.Http.Names.{header_content_type}
use yuna.Text.{to_lower, trim_space, has_prefix, has_suffix, before}
use yuna.Http.Header
use yuna.World.{Any, Request, World, Outcome, returned, Handler, Middleware}
use yuna.Problem.{serve}
use yuna.Problem.Responses.{unsupported_media_type}

-- The map `seen` as the list of its keys.
abbrev pub contains : String → List String → Bool
contains k ks = any (λ j. j == k) ks

-- One round of the loop of `normalizeMediaTypes`, on `out` and `seen`.
unfoldable pub normalize_one : String → List String × List String → List String × List String
unfolding to_lower trim_space
normalize_one t (out, seen) =
    let mt = to_lower (trim_space t) in
    if mt == ""
    then (out, seen)
    else if contains mt seen
    then (out, seen)
    else (out ++ mt ∷ [], mt ∷ seen)

unfoldable pub normalize_loop : List String → List String × List String → List String × List String
unfolding normalize_one
normalize_loop [] st = st
normalize_loop (t ∷ ts) st = normalize_loop ts (normalize_one t st)

unfoldable pub normalize_media_types : List String → List String
unfolding normalize_loop
normalize_media_types types = (normalize_loop types ([], [])).0

-- Whether one allowed type takes a media type, which is in lower case.
unfoldable pub accepts : String → String → Bool
unfolding has_suffix has_prefix before
accepts mt a = mt == a || (has_suffix a "/*" && has_prefix mt (String.◌++◌ (before b'/' a) "/"))

unfoldable pub matches_loop : String → List String → Bool
unfolding accepts
matches_loop mt [] = false
matches_loop mt (a ∷ allowed) = accepts mt a || matches_loop mt allowed

unfoldable pub matches_any : String → List String → Bool
unfolding matches_loop to_lower
matches_any mt allowed = matches_loop (to_lower mt) allowed

-- GET, HEAD, DELETE and OPTIONS
unfoldable pub has_no_body : String → Bool
has_no_body m = m == "GET" || m == "HEAD" || m == "DELETE" || m == "OPTIONS"

-- `marshal` is json.Marshal, and `parse` is the media type that mime.ParseMediaType finds, with
-- `none` for its error.
module _ (marshal : Any → Option String) (parse : String → Option String) where
  abbrev pub unsupported : Request → World → Outcome
  unsupported r w = returned (serve marshal unsupported_media_type r w).1

  abbrev pub check_type : List String → Handler → Request → World → Option String → Outcome
  check_type allowed next r w none = unsupported r w
  check_type allowed next r w (some mediatype) =
      if mediatype == ""
      then unsupported r w
      else if matches_any mediatype allowed
      then next r w
      else unsupported r w

  abbrev pub consumes_normal : List String → Middleware
  consumes_normal allowed next r w =
      if has_no_body r.method
      then next r w
      else check_type allowed next r w (parse (Header.get header_content_type w.request_header))

  unfoldable pub consumes : List String → Middleware
  unfolding normalize_media_types has_no_body
  consumes [] next r w = next r w
  consumes (a ∷ allowed) next r w = consumes_normal (normalize_media_types (a ∷ allowed)) next r w
