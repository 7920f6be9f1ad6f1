-- ===== src/Problem/Serve/Allow.antt =====
-- The Allow header of a 405.
use yuna.Prelude.{String, Option, some, List, [], ◌∷◌, ◌++◌, ◌≡◌, refl, sym, ◌∙◌, ap, eq_refl}
use mathlib.Core.List.{append-nil, append_assoc}
use yuna.Http.Header
use yuna.Http.Header.{Header, canonical, values_of}
use yuna.Http.Header.Laws.{values_of-add, values_of-set_ne}
use yuna.Http.Conn.{is_informational, body_allowed}
use yuna.World.{Any, Request, World, conn_of}
use yuna.World.Sent.{IsUnsent, send-encode}
use yuna.Problem.{add_values, add_headers, problem_headers, fill, marshal_json, serve}
use yuna.Problem.Responses.{method_not_allowed}
use yuna.Problem.Serve.{fill_fields}

values_of-add_self :
    (k v : String) (h : Header) → values_of k (Header.add k v h) ≡ values_of k h ++ v ∷ []
values_of-add_self k v h = rw (values_of-add k k v h, eq_refl (canonical k)) refl

values_of-add_values :
    (k : String) (vs : List String) (h : Header)
    → values_of k (add_values k vs h) ≡ values_of k h ++ vs
unfolding add_values
values_of-add_values k [] h = sym (append-nil _)
values_of-add_values k (v ∷ vs) h =
    values_of-add_values k vs (Header.add k v h)
    ∙ ap (λ l. l ++ vs) (values_of-add_self k v h)
    ∙ append_assoc (values_of k h) (v ∷ []) vs

problem_headers_allow :
    (allowed : List String) (h : Header)
    → values_of "Allow" (problem_headers (("Allow", allowed) ∷ []) h)
      ≡ values_of "Allow" h ++ allowed
unfolding problem_headers add_headers canonical
problem_headers_allow allowed h =
    values_of-set_ne "Content-Type" "Allow" _ _ refl
    ∙ values_of-set_ne "Cache-Control" "Allow" _ _ refl
    ∙ values_of-add_values "Allow" allowed h

-- A 405 tells the client the methods that are allowed: on a connection that has sent nothing, where
-- the problem marshals, the status is 405 and the values of Allow are those that the handler had set
-- and then the allowed methods, in their order.
pub method_not_allowed_allow :
    (marshal : Any → Option String) (allowed : List String) (r : Request) (w : World)
    (json : String)
    → IsUnsent w.writer
    → marshal_json marshal (fill w.request_header r (method_not_allowed allowed)) ≡ some json
    → let c' = conn_of (serve marshal (method_not_allowed allowed) r w).1.writer in
      (c'.status ≡ 405)
      × (values_of "Allow" c'.sent ≡ values_of "Allow" (conn_of w.writer).header ++ allowed)
unfolding serve method_not_allowed is_informational body_allowed
method_not_allowed_allow marshal allowed r w json u e =
    let p = method_not_allowed allowed in
    let fields = fill_fields w.request_header r p in
    let (s, ok) = send-encode (problem_headers (("Allow", allowed) ∷ [])) 405 json w u refl refl in
    rw (e, fields.0, fields.5, ok)
      (
        s.status,
        ap (values_of "Allow") s.sent ∙ problem_headers_allow allowed (conn_of w.writer).header,
      )
