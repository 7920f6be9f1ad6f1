-- ===== src/Middleware/Trace/Headers.antt =====
-- The headers that name a request.
use yuna.Prelude.{
  String, Bool, true, false, not, [], ◌∷◌, ◌==◌, ◌≡◌, refl, ap, ◌∙◌, arith, if◌then◌else◌, eq_refl,
}
use yuna.Http.Header
use yuna.Http.Header.{Header, values_of}
use yuna.Http.Header.Laws.{values_of-set_same, values_of-set_ne, get-set}
use yuna.World.{Request, SpanContext, World, conn_of, Handler, map_header}
use yuna.Middleware.Trace.{
  ensure_request_id, echo_correlation_id, set_trace_headers, annotated, annotate,
}

-- What the client will be sent, unless the handler changes it.
abbrev pub response_header : World → Header
response_header w = (conn_of w.writer).header

-- The id of the request.
abbrev pub request_id : String → Header → String
request_id uuid h = let id = Header.get "X-Request-ID" h in if id == "" then uuid else id

response_header-map_header :
    (f : Header → Header) (w : World) → response_header (map_header f w) ≡ f (response_header w)
unfolding map_header
response_header-map_header f w = ground (arith, w.writer)

abbrev set_if : Bool → String → String → Header → Header
set_if b k v h = if b then Header.set k v h else h

values_of-set_if_same :
    (b : Bool) (k v : String) (h : Header)
    → values_of k (set_if b k v h) ≡ (if b then v ∷ [] else values_of k h)
values_of-set_if_same true k v h = values_of-set_same k v h
values_of-set_if_same false k v h = refl

values_of-set_if_ne :
    (b : Bool) (k j v : String) (h : Header)
    → (Header.canonical k == Header.canonical j) ≡ false
    → values_of j (set_if b k v h) ≡ values_of j h
values_of-set_if_ne true k j v h n = values_of-set_ne k j v h n
values_of-set_if_ne false k j v h n = refl

-- The values of the four headers, after the four changes.
module _ (has_id has_trace : Bool) (id correlation trace_id sampled : String) (h : Header) where
  abbrev first : Header
  first = set_if true "X-Request-ID" id h

  abbrev second : Header
  second = set_if has_id "X-Correlation-ID" correlation first

  abbrev third : Header
  third = set_if has_trace "X-Trace-Id" trace_id second

  abbrev chain : Header
  chain = set_if true "X-Sampled" sampled third

  values_of-chain :
      (values_of "X-Request-ID" chain ≡ id ∷ [])
      × (values_of "X-Correlation-ID" chain
          ≡ (if has_id then correlation ∷ [] else values_of "X-Correlation-ID" h))
      × (values_of "X-Trace-Id" chain
          ≡ (if has_trace then trace_id ∷ [] else values_of "X-Trace-Id" h))
      × (values_of "X-Sampled" chain ≡ sampled ∷ [])
  unfolding Header.canonical
  values_of-chain = (
    values_of-set_if_ne true "X-Sampled" "X-Request-ID" sampled third refl
        ∙ values_of-set_if_ne has_trace "X-Trace-Id" "X-Request-ID" trace_id second refl
        ∙ values_of-set_if_ne has_id "X-Correlation-ID" "X-Request-ID" correlation first refl
        ∙ values_of-set_if_same true "X-Request-ID" id h,
    values_of-set_if_ne true "X-Sampled" "X-Correlation-ID" sampled third refl
        ∙ values_of-set_if_ne has_trace "X-Trace-Id" "X-Correlation-ID" trace_id second refl
        ∙ values_of-set_if_same has_id "X-Correlation-ID" correlation first
        ∙ ap (λ vs. if has_id then correlation ∷ [] else vs)
            (values_of-set_if_ne true "X-Request-ID" "X-Correlation-ID" id h refl),
    values_of-set_if_ne true "X-Sampled" "X-Trace-Id" sampled third refl
        ∙ values_of-set_if_same has_trace "X-Trace-Id" trace_id second
        ∙ ap (λ vs. if has_trace then trace_id ∷ [] else vs)
            (values_of-set_if_ne has_id "X-Correlation-ID" "X-Trace-Id" correlation first refl
              ∙ values_of-set_if_ne true "X-Request-ID" "X-Trace-Id" id h refl),
    values_of-set_if_same true "X-Sampled" sampled third,
  )

-- The header of the response as one chain of changes.
abbrev stamped : String → Request → World → Header
stamped uuid r w =
    let id = Header.get "X-Correlation-ID" w.request_header in
    set_if true "X-Sampled" (if r.ctx.span.sampled then "1" else "0") (
      set_if r.ctx.span.has_trace_id "X-Trace-Id" r.ctx.span.trace_id (
        set_if (not (id == "")) "X-Correlation-ID" id
          (set_if true "X-Request-ID" (request_id uuid w.request_header) (response_header w))))

pub get-ensure_request_id :
    (uuid : String) (w : World)
    → Header.get "X-Request-ID" (ensure_request_id uuid w).request_header
      ≡ request_id uuid w.request_header
unfolding ensure_request_id
get-ensure_request_id uuid w = ground (
  arith,
  get-set "X-Request-ID" "X-Request-ID" uuid w.request_header,
  eq_refl (Header.canonical "X-Request-ID"),
)

correlation-ensure_request_id :
    (uuid : String) (w : World)
    → Header.get "X-Correlation-ID" (ensure_request_id uuid w).request_header
      ≡ Header.get "X-Correlation-ID" w.request_header
unfolding ensure_request_id Header.canonical
correlation-ensure_request_id uuid w =
    ground (arith, get-set "X-Request-ID" "X-Correlation-ID" uuid w.request_header)

response_header-ensure_request_id :
    (uuid : String) (w : World) → response_header (ensure_request_id uuid w) ≡ response_header w
unfolding ensure_request_id
response_header-ensure_request_id uuid w = ground arith

response_header-echo_correlation_id :
    (w : World)
    → response_header (echo_correlation_id w) ≡ (
        let id = Header.get "X-Correlation-ID" w.request_header in
        set_if (not (id == "")) "X-Correlation-ID" id (response_header w))
unfolding echo_correlation_id
response_header-echo_correlation_id w = ground (
  arith,
  response_header-map_header
      (Header.set "X-Correlation-ID" (Header.get "X-Correlation-ID" w.request_header)) w,
)

response_header-set_trace_headers :
    (span : SpanContext) (w : World)
    → response_header (set_trace_headers span w)
      ≡ set_if true "X-Sampled"
          (if span.sampled then "1" else "0")
          (set_if span.has_trace_id "X-Trace-Id" span.trace_id (response_header w))
unfolding set_trace_headers
response_header-set_trace_headers span w =
    response_header-map_header (Header.set "X-Sampled" (if span.sampled then "1" else "0"))
      (if span.has_trace_id then map_header (Header.set "X-Trace-Id" span.trace_id) w else w)
    ∙ ap (Header.set "X-Sampled" (if span.sampled then "1" else "0"))
        (go span.has_trace_id span.trace_id)
  where
    go :
        (b : Bool) (t : String)
        → response_header (if b then map_header (Header.set "X-Trace-Id" t) w else w)
          ≡ set_if b "X-Trace-Id" t (response_header w)
    go true t = response_header-map_header (Header.set "X-Trace-Id" t) w
    go false t = refl

-- The middle of the chain, where the request has its id.
response_header-identified :
    (uuid : String) (w : World)
    → (let w' = ensure_request_id uuid w in
        response_header (
          echo_correlation_id (
            map_header
              (Header.set "X-Request-ID" (Header.get "X-Request-ID" w'.request_header))
              w')))
      ≡ (let id = Header.get "X-Correlation-ID" w.request_header in
          set_if
            (not (id == ""))
            "X-Correlation-ID"
            id
            (Header.set "X-Request-ID" (request_id uuid w.request_header) (response_header w)))
unfolding map_header
response_header-identified uuid w =
    rw
      (response_header-echo_correlation_id (
        map_header
          (Header.set "X-Request-ID"
            (Header.get "X-Request-ID" (ensure_request_id uuid w).request_header))
          (ensure_request_id uuid w)))
      (rw
        (response_header-map_header
          (Header.set "X-Request-ID"
            (Header.get "X-Request-ID" (ensure_request_id uuid w).request_header))
          (ensure_request_id uuid w))
        (rw
          (
            correlation-ensure_request_id uuid w,
            get-ensure_request_id uuid w,
            response_header-ensure_request_id uuid w,
          )
          refl))

response_header-annotated :
    (uuid : String) (r : Request) (w : World)
    → response_header (annotated uuid r w) ≡ stamped uuid r w
unfolding annotated
response_header-annotated uuid r w =
    response_header-set_trace_headers r.ctx.span _
    ∙ ap
        (λ h.
          set_if true "X-Sampled" (if r.ctx.span.sampled then "1" else "0")
            (set_if r.ctx.span.has_trace_id "X-Trace-Id" r.ctx.span.trace_id h))
        (response_header-identified uuid w)

-- The handler runs in a world where the request has an id, the one that it came with or else a new
-- one, and where the header of the response has this id, the correlation id if the request came with
-- one, the trace id if its span has one, and whether the span is sampled.
pub annotate_names_request :
    (uuid : String) (next : Handler) (r : Request) (w : World)
    → let w' = annotated uuid r w in
      let id = request_id uuid w.request_header in
      let correlation = Header.get "X-Correlation-ID" w.request_header in
      let before = response_header w in
      let after = response_header w' in
      (annotate uuid next r w ≡ next r w')
      × (values_of "X-Request-ID" after ≡ id ∷ [])
      × (values_of "X-Correlation-ID" after ≡ (
          if not (correlation == "")
          then correlation ∷ []
          else values_of "X-Correlation-ID" before))
      × (values_of "X-Trace-Id" after ≡ (
          if r.ctx.span.has_trace_id
          then r.ctx.span.trace_id ∷ []
          else values_of "X-Trace-Id" before))
      × (values_of "X-Sampled" after ≡ (if r.ctx.span.sampled then "1" else "0") ∷ [])
unfolding annotate
annotate_names_request uuid next r w =
    let id = Header.get "X-Correlation-ID" w.request_header in
    let (ids, correlations, traces, sampled) =
      values_of-chain (not (id == "")) r.ctx.span.has_trace_id (request_id uuid w.request_header) id
        r.ctx.span.trace_id (if r.ctx.span.sampled then "1" else "0") (response_header w) in
    rw (response_header-annotated uuid r w) (refl, ids, correlations, traces, sampled)
