-- ===== src/Problem.antt =====
-- problem.go: problem details (RFC 7807).
pub mod Members
pub mod Json
pub mod Serve
pub mod Unordered
pub mod Violations
pub mod Responses
mod Tests
use Prim.Native.String
use yuna.Prelude.{
  ℕ, String, Bool, true, false, Option, none, some, List, [], ◌∷◌, ◌==◌, ◌||◌, eqb, lookup, insert,
  keys, if◌then◌else◌, ◌≡◌, refl,
}
use yuna.Text.{sort, trim_space}
use yuna.Http.Header
use yuna.Http.Header.{Header}
use yuna.World.{
  Any, null, text, number, boolean, Request, World, map_header, write_header, encode, log_error,
}

-- An error, by the text of its Error method; nil is `none`.
abbrev pub Error : Type 0
Error = Option String

-- errors.Join
unfoldable pub join : Error → Error → Error
join none e = e
join (some a) none = some a
join (some a) (some b) = some (String.◌++◌ a (String.◌++◌ "\n" b))

-- `extensions` is `none` where the map is nil.
pub record ProblemDetails : Type 0 where
  pub type_uri : String
  pub title : String
  pub detail : String
  pub instance_uri : String
  pub status_code : ℕ
  pub extensions : Option (List (String × Any))
  pub headers : Header
  pub error : Error

-- The entries of a map, and a map to write to: `make` where it is nil.
abbrev pub entries {ℓ} : {V : Type ℓ} → Option (List (String × V)) → List (String × V)
entries none = []
entries (some m) = m

unfoldable pub is_reserved : String → Bool
is_reserved k =
    k == "type"
    || k == "title"
    || k == "detail"
    || k == "status"
    || k == "instance"
    || k == "violations"

unfoldable pub problem : String → ℕ → ProblemDetails
problem title status_code = record {
  type_uri = "about:blank";
  title = title;
  detail = "";
  instance_uri = "";
  status_code = status_code;
  extensions = some [];
  headers = [];
  error = none;
}

unfoldable pub set_type : String → ProblemDetails → ProblemDetails
set_type t p = record p { type_uri = t }

unfoldable pub set_detail : String → ProblemDetails → ProblemDetails
set_detail d p = record p { detail = d }

unfoldable pub set_instance : String → ProblemDetails → ProblemDetails
set_instance i p = record p { instance_uri = i }

unfoldable pub add_extension : String → Any → ProblemDetails → ProblemDetails
add_extension key val p = record p { extensions = some (insert key val (entries p.extensions)) }

unfoldable pub set_error : Error → ProblemDetails → ProblemDetails
unfolding join
set_error err p = record p { error = join p.error err }

unfoldable pub error_text : ProblemDetails → String
error_text p = elim p.error [
  | some e ↦ e
  | none ↦ String.◌++◌ "problem: " (String.◌++◌ p.title (String.◌++◌ ": " p.detail))
]

infixl 5 ◌>>=◌
abbrev pub ◌>>=◌ {ℓ κ} : {A : Type ℓ} {B : Type κ} → Option A → (A → Option B) → Option B
none >>= k = none
some a >>= k = k a

pub >>=-assoc {ℓ κ μ} :
    {A : Type ℓ} {B : Type κ} {C : Type μ} (o : Option A) (f : A → Option B) (g : B → Option C)
    → ((o >>= f) >>= g) ≡ (o >>= λ a. f a >>= g)
>>=-assoc none f g = refl
>>=-assoc (some a) f g = refl

-- p.Extensions[k], which is nil for a key that is not there
abbrev pub or_null : Option Any → Any
or_null none = null
or_null (some v) = v

-- `marshal` is json.Marshal, with `none` for its error.
module _ (marshal : Any → Option String) where
  -- The closure `writeKV`, on the buffer and the flag `first`.
  unfoldable pub write_kv : String → Any → String × Bool → Option (String × Bool)
  write_kv key val (buf, first) = do
    let buf = if first then buf else String.◌++◌ buf ","
    kb ← marshal (text key)
    vb ← marshal val
    some (String.◌++◌ buf (String.◌++◌ kb (String.◌++◌ ":" vb)), false)

  -- The loop over the sorted keys.
  unfoldable pub write_extensions :
      List (String × Any) → List String → String × Bool → Option (String × Bool)
  unfolding write_kv
  write_extensions ext [] st = some st
  write_extensions ext (k ∷ ks) st = elim (is_reserved k) [
    | true ↦ write_extensions ext ks st
    | false ↦ do st' ← write_kv k (or_null (lookup k ext)) st; write_extensions ext ks st'
  ]

  unfoldable pub marshal_json : ProblemDetails → Option String
  unfolding write_kv write_extensions sort
  marshal_json p = do
    st ← write_kv "type" (text p.type_uri) ("{", true)
    st ← write_kv "title" (text p.title) st
    st ← write_kv "detail" (text p.detail) st
    st ← write_kv "instance" (text p.instance_uri) st
    st ← write_kv "status" (number p.status_code) st
    (buf, first) ← write_extensions (entries p.extensions) (sort (keys (entries p.extensions))) st
    some (String.◌++◌ buf "}")

-- `ServeHTTP` up to the headers: the fields that it fills in. `header` is the request's.
unfoldable pub default_status : ProblemDetails → ProblemDetails
default_status p = if eqb p.status_code 0 then record p { status_code = 500 } else p

unfoldable pub default_instance : String → ProblemDetails → ProblemDetails
unfolding trim_space
default_instance path p =
    if trim_space p.instance_uri == "" then record p { instance_uri = path } else p

unfoldable pub default_type : ProblemDetails → ProblemDetails
unfolding trim_space
default_type p = if trim_space p.type_uri == "" then record p { type_uri = "about:blank" } else p

unfoldable pub make_extensions : ProblemDetails → ProblemDetails
make_extensions p = record p { extensions = some (entries p.extensions) }

unfoldable pub add_request_id : Header → ProblemDetails → ProblemDetails
unfolding add_extension
add_request_id header p =
    let id = Header.get "X-Request-ID" header in
    if id == "" then p else add_extension "requestId" (text id) p

unfoldable pub add_correlation_id : Header → ProblemDetails → ProblemDetails
unfolding add_extension
add_correlation_id header p =
    let id = Header.get "X-Correlation-ID" header in
    if id == "" then p else add_extension "correlationId" (text id) p

unfoldable pub add_trace : Request → ProblemDetails → ProblemDetails
unfolding add_extension
add_trace r p =
    let span = r.ctx.span in
    if span.has_trace_id
    then add_extension "sampled" (boolean span.sampled)
        (add_extension "traceId" (text span.trace_id) p)
    else p

unfoldable pub fill : Header → Request → ProblemDetails → ProblemDetails
fill header r p = add_trace r (
    add_correlation_id header (
      add_request_id header
        (make_extensions (default_type (default_instance r.path (default_status p))))))

-- The loop over the problem's own headers.
unfoldable pub add_values : String → List String → Header → Header
add_values k [] h = h
add_values k (v ∷ vs) h = add_values k vs (Header.add k v h)

unfoldable pub add_headers : Header → Header → Header
unfolding add_values
add_headers [] h = h
add_headers ((k, vs) ∷ hs) h = add_headers hs (add_values k vs h)

unfoldable pub problem_headers : Header → Header → Header
unfolding add_headers
problem_headers own h =
    Header.set "Content-Type" "application/problem+json"
      (Header.set "Cache-Control" "no-cache, no-store, must-revalidate" (add_headers own h))

module _ (marshal : Any → Option String) where
  -- The problem is changed in place, so it comes back with the world.
  unfoldable pub serve : ProblemDetails → Request → World → ProblemDetails × World
  serve p r w =
      let p' = fill w.request_header r p in
      let w = write_header p'.status_code (map_header (problem_headers p'.headers) w) in
      let (w, failed) = encode (marshal_json marshal p') w in
      (p', if failed then log_error r.ctx "Error writing problem/error response to client" w else w)

  -- `Respond`, as the end of a handler: its error is always nil.
  unfoldable pub respond : ProblemDetails → Request → World → World
  unfolding serve
  respond p r w = (serve p r w).1
