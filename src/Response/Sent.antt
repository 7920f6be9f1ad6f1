-- ===== src/Response/Sent.antt =====
-- What a client is sent for a response.
use Prim.Native.String
use yuna.Prelude.{
  ℕ, String, true, false, Option, none, some, List, [], ◌∷◌, ◌++◌, ◌≡◌, refl, ap, ◌∙◌, sym, arith,
  eqb, if◌then◌else◌, Bool-cases, inl, inr,
}
use yuna.Http.Header.{Header, values_of}
use yuna.Http.Header.Laws.{values_of-set_same}
use yuna.Http.Conn.{is_informational, body_allowed}
use yuna.World.{Any, bytes, Request, World, conn_of, write_header, map_header}
use yuna.World.Sent.{IsUnsent, send-encode}
use yuna.Response.{ResponseBuilder, html, is_null, default_status, response_headers, respond}

-- The status of a response: 200 with a body and 204 without one, where none was set.
unfoldable pub status_sent : ResponseBuilder → ℕ
status_sent rb =
    if eqb rb.status_code 0 then (if is_null rb.body then 204 else 200) else rb.status_code

abbrev settled : ResponseBuilder → ResponseBuilder
settled rb = record rb { status_code = status_sent rb }

default_status-settled : (rb : ResponseBuilder) → default_status rb ≡ settled rb
unfolding default_status status_sent
default_status-settled rb = elim (Bool-cases (eqb rb.status_code 0)) [
  | inl z ↦ elim (Bool-cases (is_null rb.body)) [
    | inl n ↦ rw (z, n) (rw (z, n) refl)
    | inr n ↦ rw (z, n) refl
  ]
  | inr z ↦ rw z (rw z refl)
]

-- The content type that the header of a response has, over all that it had.
abbrev pub content_type : ResponseBuilder → String
content_type rb = if rb.html then "text/html; charset=utf-8" else "application/json; charset=utf-8"

content_type-response_headers :
    (rb : ResponseBuilder) (h : Header)
    → values_of "Content-Type" (response_headers rb h) ≡ content_type rb ∷ []
unfolding response_headers
content_type-response_headers rb h = values_of-set_same "Content-Type" _ _

-- On a connection that has sent nothing, a response with a body that marshals, and a status, 200
-- where none was set, that is final and allows a body: the client is sent that status, the content
-- type of JSON or of HTML, and the text and a newline as what is added to the body, and no error is
-- returned.
pub respond_sends_body :
    (marshal : Any → Option String) (rb : ResponseBuilder) (r : Request) (w : World) (json : String)
    → IsUnsent w.writer
    → is_null rb.body ≡ false
    → is_informational (status_sent rb) ≡ false
    → body_allowed (status_sent rb) ≡ true
    → marshal rb.body ≡ some json
    → let (w', failed) = respond marshal rb r w in
      ((conn_of w'.writer).status ≡ status_sent rb)
      × (values_of "Content-Type" (conn_of w'.writer).sent ≡ content_type rb ∷ [])
      × ((conn_of w'.writer).body ≡ (conn_of w.writer).body ++ String.◌++◌ json "\n" ∷ [])
      × (failed ≡ false)
unfolding respond
respond_sends_body marshal rb r w json u n i b e =
    let (s, ok) = send-encode (response_headers (settled rb)) (status_sent rb) json w u i b in
    rw (default_status-settled rb) (
      rw (n, e)
        (
          s.status,
          ap (values_of "Content-Type") s.sent ∙ content_type-response_headers (settled rb) _,
          s.body,
          ok,
        ))

-- On a connection that has sent nothing, a response without a body, and a status, 204 where none was
-- set, that is final: the client is sent that status, nothing is added to the body, and no error is
-- returned, whatever json.Marshal does.
pub respond_sends_no_body :
    (marshal : Any → Option String) (rb : ResponseBuilder) (r : Request) (w : World)
    → IsUnsent w.writer
    → is_null rb.body ≡ true
    → is_informational (status_sent rb) ≡ false
    → let (w', failed) = respond marshal rb r w in
      ((conn_of w'.writer).status ≡ status_sent rb)
      × ((conn_of w'.writer).body ≡ (conn_of w.writer).body)
      × (failed ≡ false)
unfolding respond write_header map_header
respond_sends_no_body marshal rb r w u n i = rw (default_status-settled rb) (rw n (ground arith))

-- The HTML of a template goes through json.Marshal as bytes: the client is sent the content type of
-- HTML with the JSON text of those bytes as the body.
pub html_sent_as_json :
    (marshal : Any → Option String) (rb rb' : ResponseBuilder) (r : Request) (w : World)
    (buf : List ℕ) (json : String)
    → html (some buf) rb ≡ some rb'
    → IsUnsent w.writer
    → is_informational (status_sent rb') ≡ false
    → body_allowed (status_sent rb') ≡ true
    → marshal (bytes buf) ≡ some json
    → let (w', failed) = respond marshal rb' r w in
      (values_of "Content-Type" (conn_of w'.writer).sent ≡ "text/html; charset=utf-8" ∷ [])
      × ((conn_of w'.writer).body ≡ (conn_of w.writer).body ++ String.◌++◌ json "\n" ∷ [])
unfolding html
html_sent_as_json marshal rb rb' r w buf json h u i b e =
    let same : record rb { body = bytes buf; html = true } ≡ rb' = ap (or_else rb) h in
    let is_bytes : rb'.body ≡ bytes buf = sym (ap (λ q. q.body) same) in
    let (_, content, sent, _) =
      respond_sends_body marshal rb' r w json u (ap is_null is_bytes) i b
        (ap marshal is_bytes ∙ e) in
    (
      content
          ∙ ap
              (λ x.
                (if x then "text/html; charset=utf-8" else "application/json; charset=utf-8") ∷ [])
              (sym (ap (λ q. q.html) same)),
      sent,
    )
  where
    or_else : ResponseBuilder → Option ResponseBuilder → ResponseBuilder
    or_else d none = d
    or_else d (some x) = x
