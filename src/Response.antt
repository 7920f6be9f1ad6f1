-- ===== src/Response.antt =====
-- response.go: the builder of a response, and the response it gives. Each method changes the builder
-- in place and returns it. Respond settles the status in place too: a builder is used for one
-- response here.
pub mod Sent
mod Tests
use Prim.Native.String
use yuna.Prelude.{
  ℕ, String, Bool, true, false, ◌&&◌, not, Option, none, some, List, [], ◌∷◌, ◌++◌, ◌==◌, eqb,
  if◌then◌else◌,
}
use yuna.Http.Header
use yuna.Http.Header.{Header}
use yuna.World.{Any, null, bytes, Request, World, map_header, write_header, encode, Panic}
use yuna.Problem.{add_values, add_headers}

-- A cookie is the text of its String method, empty for one that http.SetCookie leaves out.
pub record ResponseBuilder : Type 0 where
  pub status_code : ℕ
  pub header : Header
  pub cookies : List String
  pub body : Any
  pub html : Bool

unfoldable pub response : ResponseBuilder
response = record { status_code = 0; header = []; cookies = []; body = null; html = false }

unfoldable pub status : ℕ → ResponseBuilder → ResponseBuilder
status code rb = record rb { status_code = code }

unfoldable pub header : String → List String → ResponseBuilder → ResponseBuilder
unfolding add_values
header key values rb = record rb { header = add_values key values rb.header }

unfoldable pub headers : Header → ResponseBuilder → ResponseBuilder
unfolding add_headers
headers hs rb = record rb { header = add_headers hs rb.header }

unfoldable pub cookie : String → ResponseBuilder → ResponseBuilder
cookie c rb = record rb { cookies = rb.cookies ++ c ∷ [] }

unfoldable pub cookies : List String → ResponseBuilder → ResponseBuilder
cookies cs rb = record rb { cookies = rb.cookies ++ cs }

unfoldable pub body : Any → ResponseBuilder → ResponseBuilder
body b rb = record rb { body = b }

-- `executed` is what the template writes, with `none` for an error, on which the method panics.
unfoldable pub html : Option (List ℕ) → ResponseBuilder → Option ResponseBuilder
html none rb = none
html (some buf) rb = some (record rb { body = bytes buf; html = true })

abbrev pub is_null : Any → Bool
is_null null = true
is_null _ = false

unfoldable pub default_status : ResponseBuilder → ResponseBuilder
default_status rb =
    let rb =
      if eqb rb.status_code 0 && not (is_null rb.body)
      then record rb { status_code = 200 }
      else rb in
    if eqb rb.status_code 0 && is_null rb.body then record rb { status_code = 204 } else rb

-- http.SetCookie
unfoldable pub set_cookies : List String → Header → Header
set_cookies [] h = h
set_cookies (c ∷ cs) h = set_cookies cs (if c == "" then h else Header.add "Set-Cookie" c h)

-- The header of the response, over the one that the writer has.
unfoldable pub response_headers : ResponseBuilder → Header → Header
unfolding add_headers set_cookies
response_headers rb h =
    Header.set "Content-Type"
      (if rb.html then "text/html; charset=utf-8" else "application/json; charset=utf-8")
      (set_cookies rb.cookies (add_headers rb.header h))

-- The world, and whether an error is returned.
unfoldable pub respond : (Any → Option String) → ResponseBuilder → Request → World → World × Bool
unfolding default_status response_headers map_header write_header
respond marshal rb r w =
    let rb = default_status rb in
    let w = write_header rb.status_code (map_header (response_headers rb) w) in
    if is_null rb.body then (w, false) else encode (marshal rb.body) w

unfoldable pub ok : Any → ResponseBuilder
ok b = record { status_code = 200; header = []; cookies = []; body = b; html = false }

unfoldable pub created : String → ResponseBuilder
created location = record {
  status_code = 201;
  header = ("Location", location ∷ []) ∷ [];
  cookies = [];
  body = null;
  html = false;
}

unfoldable pub accepted : ResponseBuilder
accepted = record { status_code = 202; header = []; cookies = []; body = null; html = false }

unfoldable pub no_content : ResponseBuilder
no_content = record { status_code = 204; header = []; cookies = []; body = null; html = false }
