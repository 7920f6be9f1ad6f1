-- ===== src/App/Named.antt =====
-- A problem that a client is sent behind the trace middleware names the request as the header does.
mod Tests
use Prim.Native.String
use yuna.Prelude.{
  String, Bool, true, false, Option, none, some, List, [], ◌∷◌, ◌++◌, ◌==◌, ◌≡◌, refl, sym, ap, ◌∙◌,
  arith, lookup, insert, lookup-insert, keys, map, if◌then◌else◌, ◌||◌, any, eq_iff, Bool-cases,
  inl, inr, ◌&&◌, not,
}
use yuna.Text.{sort}
use yuna.Text.Order.{has, any-sort}
use yuna.Http.Header
use yuna.Http.Header.{Header, values_of}
use yuna.Http.Header.Laws.{values_of-set_ne}
use yuna.Http.Conn.{is_informational, body_allowed}
use yuna.World.{
  Any, text, Request, World, conn_of, returned, world_of, Handler, map_header, write_header, encode,
}
use yuna.World.Sent.{IsUnsent, send-encode}
use yuna.Problem.{
  ProblemDetails, entries, or_null, add_extension, add_request_id, add_correlation_id, add_trace,
  default_status, default_instance, default_type, make_extensions, fill, problem_headers,
  add_headers, marshal_json, serve, is_reserved,
}
use yuna.Problem.Serve.{fill_fields}
use yuna.Problem.Members.Keys.{has-unreserved}
use yuna.Problem.Unordered.{has-keys, is_present}
use yuna.Problem.Members.{Member, core, pick, unreserved, members}
use yuna.Middleware.Trace.{
  ensure_request_id, echo_correlation_id, set_trace_headers, annotated, annotate,
}
use yuna.Middleware.Trace.Headers.{
  request_id, response_header, get-ensure_request_id, annotate_names_request,
}
use yuna.App.Through.Unsent.{annotated-IsUnsent, annotated-body}

request_header-annotated :
    (uuid : String) (r : Request) (w : World)
    → (annotated uuid r w).request_header ≡ (ensure_request_id uuid w).request_header
unfolding annotated echo_correlation_id set_trace_headers map_header
request_header-annotated uuid r w = ground arith

-- The extension under a key, once another has been set.
lookup-add_extension :
    (k j : String) (v : Any) (p : ProblemDetails)
    → lookup j (entries (add_extension k v p).extensions)
      ≡ (if k == j then some v else lookup j (entries p.extensions))
unfolding add_extension
lookup-add_extension k j v p = lookup-insert k j v (entries p.extensions)

id_of : ProblemDetails → Option Any
id_of p = lookup "requestId" (entries p.extensions)

id_of-add_request_id :
    (h : Header) (p : ProblemDetails) (id : String)
    → Header.get "X-Request-ID" h ≡ id
    → (id == "") ≡ false
    → id_of (add_request_id h p) ≡ some (text id)
unfolding id_of add_request_id
id_of-add_request_id h p id e n =
    rw (e, n) (lookup-add_extension "requestId" "requestId" (text id) p)

id_of-add_correlation_id :
    (h : Header) (p : ProblemDetails) → id_of (add_correlation_id h p) ≡ id_of p
unfolding id_of add_correlation_id
id_of-add_correlation_id h p = ground (
  arith,
  lookup-add_extension "correlationId" "requestId" (text (Header.get "X-Correlation-ID" h)) p,
)

id_of-add_trace : (r : Request) (p : ProblemDetails) → id_of (add_trace r p) ≡ id_of p
unfolding id_of add_trace
id_of-add_trace r p =
    let q = add_extension "traceId" (text r.ctx.span.trace_id) p in
    ground (
      arith,
      lookup-add_extension "sampled" "requestId" (yuna.World.boolean r.ctx.span.sampled) q,
      lookup-add_extension "traceId" "requestId" (text r.ctx.span.trace_id) p,
    )

id_of-fill :
    (h : Header) (r : Request) (p : ProblemDetails) (id : String)
    → Header.get "X-Request-ID" h ≡ id
    → (id == "") ≡ false
    → id_of (fill h r p) ≡ some (text id)
unfolding fill
id_of-fill h r p id e n =
    id_of-add_trace r _ ∙ id_of-add_correlation_id h _ ∙ id_of-add_request_id h _ id e n

lookup-picked :
    (k : String) (ext : List (String × Any)) (ks : List String)
    → has k ks ≡ true
    → lookup k (map (pick ext) ks) ≡ some (or_null (lookup k ext))
unfolding lookup
lookup-picked k ext [] h = cc
lookup-picked k ext (j ∷ ks) h = elim (Bool-cases (j == k)) [
  | inl e ↦ rw e (ap (λ x. some (or_null (lookup x ext))) ((eq_iff j k).0 e))
  | inr e ↦ rw e (lookup-picked k ext ks (rw e at h))
]

-- The member of the JSON object.
lookup-members :
    (q : ProblemDetails) (v : Any) → id_of q ≡ some v → lookup "requestId" (members q) ≡ some v
unfolding id_of members lookup is_present is_reserved
lookup-members q v e =
    let ext = entries q.extensions in
    let present =
      has-unreserved "requestId" (sort (keys ext))
      ∙ ap (λ b. b && not (is_reserved "requestId"))
          (any-sort (λ j. j == "requestId") (keys ext)
            ∙ has-keys "requestId" ext
            ∙ ap is_present e) in
    lookup-picked "requestId" ext (unreserved (sort (keys ext))) present
    ∙ ap (λ o. some (or_null o)) e

own_ids-kept :
    (own h : Header)
    → own ≡ []
    → values_of "X-Request-ID" (problem_headers own h) ≡ values_of "X-Request-ID" h
unfolding problem_headers add_headers Header.canonical
own_ids-kept own h e = rw e (
    values_of-set_ne "Content-Type" "X-Request-ID" _ _ refl
    ∙ values_of-set_ne "Cache-Control" "X-Request-ID" _ _ refl)

abbrev pub problem_handler : (Any → Option String) → ProblemDetails → Handler
problem_handler marshal p r w = returned (serve marshal p r w).1

-- A handler behind the trace middleware that answers with a problem, without headers of its own,
-- names the request in two places alike: the client is sent the request's id, its own or the new
-- one where it has none, in X-Request-ID and as the member "requestId" of the problem, whose JSON is
-- the body. It takes that the id is not empty, that nothing has been sent, and that the problem's
-- status and its JSON can be sent.
pub problem_names_request :
    (marshal : Any → Option String) (uuid : String) (p : ProblemDetails) (r : Request) (w : World)
    (json : String)
    → (request_id uuid w.request_header == "") ≡ false
    → p.headers ≡ []
    → IsUnsent w.writer
    → is_informational (fill (annotated uuid r w).request_header r p).status_code ≡ false
    → body_allowed (fill (annotated uuid r w).request_header r p).status_code ≡ true
    → marshal_json marshal (fill (annotated uuid r w).request_header r p) ≡ some json
    → let id = request_id uuid w.request_header in
      let c' = conn_of (world_of (annotate uuid (problem_handler marshal p) r w)).writer in
      (values_of "X-Request-ID" c'.sent ≡ id ∷ [])
      × (lookup "requestId" (members (fill (annotated uuid r w).request_header r p))
          ≡ some (text id))
      × (c'.body ≡ (conn_of w.writer).body ++ String.◌++◌ json "\n" ∷ [])
unfolding annotate serve
problem_names_request marshal uuid p r w json n o u i b m =
    let w' = annotated uuid r w in
    let q = fill w'.request_header r p in
    let (s, ok) =
      send-encode (problem_headers q.headers) q.status_code json w' (annotated-IsUnsent uuid r w u)
        i b in
    let (_, named, _, _, _) = annotate_names_request uuid (problem_handler marshal p) r w in
    let (_, _, _, _, _, own) = fill_fields w'.request_header r p in
    let id =
      ap (Header.get "X-Request-ID") (request_header-annotated uuid r w)
      ∙ get-ensure_request_id uuid w in
    rw (m, ok)
      (
        ap (values_of "X-Request-ID") s.sent ∙ own_ids-kept q.headers _ (own ∙ o) ∙ named,
        lookup-members q _ (id_of-fill w'.request_header r p _ id n),
        s.body ∙ ap (λ ls. ls ++ String.◌++◌ json "\n" ∷ []) (annotated-body uuid r w),
      )
