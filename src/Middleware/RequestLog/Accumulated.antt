-- ===== src/Middleware/RequestLog/Accumulated.antt =====
-- What the logger of a request carries.
use yuna.Prelude.{
  String, Bool, true, false, not, List, [], ◌∷◌, ◌++◌, ◌==◌, ◌≡◌, refl, sym, ap, ◌∙◌, if◌then◌else◌,
  Bool-cases, inl, inr,
}
use mathlib.Core.List.{append-nil, append_assoc}
use yuna.Http.Header
use yuna.Http.Header.{Header}
use yuna.Log.Level.{Attr, text}
use yuna.Log.Logger.{Logger, with_attrs}
use yuna.World.{Request, World, Handler}
use yuna.Middleware.RequestLog.{extend, request_logger, request_info, with_text}

-- The attributes that one request gives to the logger.
module _ (info : List (String × String) → String) where
  abbrev pub field : Bool → String → String → List Attr
  field b key value = if b then [] else record { key = key; value = text value } ∷ []

  abbrev pub attrs_of : Header → Request → List Attr
  attrs_of header r =
      field (Header.get "X-Request-ID" header == "") "request_id" (Header.get "X-Request-ID" header)
      ++ field (Header.get "X-Correlation-ID" header == "") "correlation_id"
          (Header.get "X-Correlation-ID" header)
      ++ field (not r.ctx.span.has_trace_id) "trace_id" r.ctx.span.trace_id
      ++ record { key = "http_request"; value = text (info (request_info info header r)) } ∷ []

  attrs-with_text :
      (key value : String) (l : Logger)
      → (with_text info key value l).attrs ≡ l.attrs ++ field (value == "") key value
  unfolding with_attrs
  attrs-with_text key value l = elim (Bool-cases (value == "")) [
    | inl e ↦ rw e (sym (append-nil l.attrs))
    | inr e ↦ rw e refl
  ]

  attrs-with_trace :
      (b : Bool) (value : String) (l : Logger)
      → (if b then with_attrs (record { key = "trace_id"; value = text value } ∷ []) l else l).attrs
        ≡ l.attrs ++ field (not b) "trace_id" value
  unfolding with_attrs
  attrs-with_trace true value l = refl
  attrs-with_trace false value l = sym (append-nil l.attrs)

  append_assoc4 :
      (as0 as1 as2 as3 as4 : List Attr)
      → as0 ++ as1 ++ as2 ++ as3 ++ as4 ≡ as0 ++ (as1 ++ as2 ++ as3 ++ as4)
  append_assoc4 as0 as1 as2 as3 as4 =
      rw
        (
          append_assoc (as0 ++ as1) as2 as3,
          append_assoc as0 as1 (as2 ++ as3),
          append_assoc as0 (as1 ++ (as2 ++ as3)) as4,
          append_assoc as1 as2 as3,
        )
        refl

  attrs-extend :
      (header : Header) (r : Request) (l : Logger)
      → (extend info header r l).attrs ≡ l.attrs ++ attrs_of header r
  unfolding extend with_attrs
  attrs-extend header r l =
      let id = Header.get "X-Request-ID" header in
      let correlation = Header.get "X-Correlation-ID" header in
      let l1 = with_text info "request_id" id l in
      let l2 = with_text info "correlation_id" correlation l1 in
      let last =
        record { key = "http_request"; value = text (info (request_info info header r)) } ∷ [] in
      ap (λ xs. xs ++ last)
        (attrs-with_trace r.ctx.span.has_trace_id r.ctx.span.trace_id l2
          ∙ ap (λ xs. xs ++ field (not r.ctx.span.has_trace_id) "trace_id" r.ctx.span.trace_id)
              (attrs-with_text "correlation_id" correlation l1
                ∙ ap (λ xs. xs ++ field (correlation == "") "correlation_id" correlation)
                    (attrs-with_text "request_id" id l)))
      ∙ append_assoc4 l.attrs (field (id == "") "request_id" id)
          (field (correlation == "") "correlation_id" correlation)
          (field (not r.ctx.span.has_trace_id) "trace_id" r.ctx.span.trace_id) last

  -- The logger that the middleware keeps, after one request after another.
  abbrev pub logger_after : Handler → List (Request × World) → Logger → Logger
  logger_after next [] l = l
  logger_after next ((r, w) ∷ rs) l = logger_after next rs (request_logger info next r w l).1

  abbrev pub attrs_of_all : List (Request × World) → List Attr
  attrs_of_all [] = []
  attrs_of_all ((r, w) ∷ rs) = attrs_of w.request_header r ++ attrs_of_all rs

  -- The logger that the middleware keeps carries, after any requests, the attributes of every one of
  -- them, the oldest first, after those that it began with.
  pub request_logger_accumulates :
      (next : Handler) (rs : List (Request × World)) (l : Logger)
      → (logger_after next rs l).attrs ≡ l.attrs ++ attrs_of_all rs
  unfolding request_logger
  request_logger_accumulates next [] l = sym (append-nil l.attrs)
  request_logger_accumulates next ((r, w) ∷ rs) l =
      request_logger_accumulates next rs (extend info w.request_header r l)
      ∙ ap (λ xs. xs ++ attrs_of_all rs) (attrs-extend w.request_header r l)
      ∙ append_assoc l.attrs (attrs_of w.request_header r) (attrs_of_all rs)
