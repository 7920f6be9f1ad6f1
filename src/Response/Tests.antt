-- ===== src/Response/Tests.antt =====
-- Responses on concrete bodies.
use Prim.Native.String
use yuna.Prelude.{ℕ, true, false, List, [], ◌∷◌, ◌++◌, ◌≡◌, refl}
use yuna.Http.Header.{values_of}
use yuna.Http.Conn.{is_informational, body_allowed}
use yuna.World.{bytes, conn_of, text}
use yuna.Response.{ResponseBuilder, html, respond, ok, response}
use yuna.Sample.{marshal, request, world}
use yuna.Response.Sent.{
  respond_sends_body, respond_sends_no_body, html_sent_as_json, status_sent, content_type,
}

abbrev page : List ℕ
page = 60 ∷ 98 ∷ 62 ∷ []

abbrev book : ResponseBuilder
book = ok (text "book")

abbrev empty_page : ResponseBuilder
empty_page = response

abbrev html_page : ResponseBuilder
html_page = record response { body = bytes page; html = true }

respond_sends_body_example :
    let (w', failed) = respond marshal book request world in
    ((conn_of w'.writer).status ≡ status_sent book)
    × (values_of "Content-Type" (conn_of w'.writer).sent ≡ content_type book ∷ [])
    × ((conn_of w'.writer).body ≡ (conn_of world.writer).body ++ String.◌++◌ "\"book\"" "\n" ∷ [])
    × (failed ≡ false)
unfolding ok status_sent is_informational body_allowed
respond_sends_body_example =
    respond_sends_body marshal book request world "\"book\"" refl refl refl refl refl

respond_sends_no_body_run :
    let (w', failed) = respond marshal empty_page request world in
    ((conn_of w'.writer).status ≡ status_sent empty_page)
    × ((conn_of w'.writer).body ≡ (conn_of world.writer).body)
    × (failed ≡ false)
unfolding response status_sent is_informational
respond_sends_no_body_run = respond_sends_no_body marshal empty_page request world refl refl refl

html_sent_as_json_run :
    let (w', failed) = respond marshal html_page request world in
    (values_of "Content-Type" (conn_of w'.writer).sent ≡ "text/html; charset=utf-8" ∷ [])
    × ((conn_of w'.writer).body ≡ (conn_of world.writer).body ++ String.◌++◌ "\"PGI+\"" "\n" ∷ [])
unfolding html response status_sent is_informational body_allowed
html_sent_as_json_run =
    html_sent_as_json marshal empty_page html_page request world page "\"PGI+\"" refl refl refl refl
      refl
