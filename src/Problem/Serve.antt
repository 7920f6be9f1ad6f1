-- ===== src/Problem/Serve.antt =====
-- What a client is sent for a problem.
pub mod Allow
use Prim.Native.String
use yuna.Prelude.{
  ℕ, String, Bool, true, false, Option, none, some, List, [], ◌∷◌, ◌++◌, ◌==◌, ◌≡◌, refl, ◌∙◌, ap,
  arith, eqb, if◌then◌else◌, lookup, lookup-insert, eq_iff,
}
use yuna.Text.{trim_space}
use yuna.Http.Header
use yuna.Http.Header.{Header, canonical, values_of}
use yuna.Http.Header.Laws.{values_of-set_same, values_of-set_ne}
use yuna.Http.Conn.{is_informational, body_allowed}
use yuna.World.{Any, text, boolean, Request, World, conn_of, write_header, map_header, encode}
use yuna.World.Sent.{IsUnsent, IsSent, send-encode}
use yuna.Problem.{
  ProblemDetails, entries, default_status, default_instance, default_type, make_extensions,
  add_request_id, add_correlation_id, add_trace, add_extension, fill, add_values, add_headers,
  problem_headers, marshal_json, serve,
}

abbrev pub cache_control : String
cache_control = "no-cache, no-store, must-revalidate"

-- The headers of the problem itself do not override these two.
pub problem_headers_fixed :
    (own h : Header)
    → (values_of "Content-Type" (problem_headers own h) ≡ "application/problem+json" ∷ [])
      × (values_of "Cache-Control" (problem_headers own h) ≡ cache_control ∷ [])
unfolding problem_headers canonical
problem_headers_fixed own h = (
  values_of-set_same "Content-Type" _ _,
  values_of-set_ne "Content-Type" "Cache-Control" _ _ refl ∙ values_of-set_same "Cache-Control" _ _,
)

-- On a connection that has sent nothing, for a problem whose status, 500 where it has none, is final
-- and allows a body, and whose filled-in fields marshal to a text: the client is sent that status,
-- the content type and the cache control of a problem, and that text and a newline as what is added
-- to the body; nothing is logged.
pub serve_sent :
    (marshal : Any → Option String) (p : ProblemDetails) (r : Request) (w : World) (json : String)
    → IsUnsent w.writer
    → is_informational (fill w.request_header r p).status_code ≡ false
    → body_allowed (fill w.request_header r p).status_code ≡ true
    → marshal_json marshal (fill w.request_header r p) ≡ some json
    → let c' = conn_of (serve marshal p r w).1.writer in
      (c'.status ≡ (fill w.request_header r p).status_code)
      × (values_of "Content-Type" c'.sent ≡ "application/problem+json" ∷ [])
      × (values_of "Cache-Control" c'.sent ≡ cache_control ∷ [])
      × (c'.body ≡ (conn_of w.writer).body ++ String.◌++◌ json "\n" ∷ [])
      × ((serve marshal p r w).1.events ≡ w.events)
unfolding serve
serve_sent marshal p r w json u i b e =
    let q = fill w.request_header r p in
    let (s, ok) = send-encode (problem_headers q.headers) q.status_code json w u i b in
    let fixed = problem_headers_fixed q.headers (conn_of w.writer).header in
    rw (e, ok)
      (
        s.status,
        ap (values_of "Content-Type") s.sent ∙ fixed.0,
        ap (values_of "Cache-Control") s.sent ∙ fixed.1,
        s.body,
        s.same_events,
      )

-- The fields that are filled in, for every problem and request: a status of 0 becomes 500, a blank
-- instance the path of the request, a blank type "about:blank"; the title, the detail and the
-- problem's headers stay.
pub fill_fields :
    (h : Header) (r : Request) (p : ProblemDetails)
    → ((fill h r p).status_code ≡ (if eqb p.status_code 0 then 500 else p.status_code))
      × ((fill h r p).instance_uri
          ≡ (if trim_space p.instance_uri == "" then r.path else p.instance_uri))
      × ((fill h r p).type_uri
          ≡ (if trim_space p.type_uri == "" then "about:blank" else p.type_uri))
      × ((fill h r p).title ≡ p.title)
      × ((fill h r p).detail ≡ p.detail)
      × ((fill h r p).headers ≡ p.headers)
unfolding fill default_status default_instance default_type make_extensions add_request_id
    add_correlation_id add_trace
fill_fields h r p =
    (ground arith, ground arith, ground arith, ground arith, ground arith, ground arith)
