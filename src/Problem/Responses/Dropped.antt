-- ===== src/Problem/Responses/Dropped.antt =====
-- The violations of a validation problem do not reach the client.
use yuna.Prelude.{
  String, false, Option, some, List, [], ◌∷◌, map, ◌≡◌, ◌∙◌, refl, sym, ap, arith, Bool-cases, inl,
  inr, lookup, insert, keys, lookup-insert, eq_iff, ◌==◌, if◌then◌else◌,
}
use yuna.Text.{sort}
use yuna.Http.Header
use yuna.Http.Header.{Header}
use yuna.World.{Any, Request, World, text, boolean, violations}
use yuna.Problem.{
  ProblemDetails, is_reserved, default_status, default_instance, default_type, make_extensions,
  add_request_id, add_correlation_id, add_trace, fill, marshal_json, serve,
}
use yuna.Problem.Members.{members, unreserved, pick, render}
use yuna.Problem.Json.{marshal_json-render}
use yuna.Problem.Responses.{bad_request, unprocessable_entity}

-- Two maps with the same keys in the same order that may differ at reserved keys.
record Alike (m m' : List (String × Any)) : Type 0 where
  same_keys : keys m ≡ keys m'
  same_value : (k : String) → is_reserved k ≡ false → lookup k m ≡ lookup k m'

abbrev add_key : String → List String → List String
add_key k [] = k ∷ []
add_key k (j ∷ ks) = if j == k then k ∷ ks else j ∷ add_key k ks

keys-insert :
    (k : String) (v : Any) (m : List (String × Any)) → keys (insert k v m) ≡ add_key k (keys m)
unfolding keys insert
keys-insert k v [] = refl
keys-insert k v ((j, w) ∷ m) = ground (arith, keys-insert k v m)

insert-Alike :
    (k : String) (v : Any) (m m' : List (String × Any))
    → Alike m m'
    → Alike (insert k v m) (insert k v m')
insert-Alike k v m m' a = record {
  same_keys = rw (keys-insert k v m, keys-insert k v m') (ap (add_key k) a.same_keys);
  same_value = λ j r. rw (lookup-insert k j v m, lookup-insert k j v m', a.same_value j r) refl;
}

map-pick-Alike :
    (m m' : List (String × Any)) (ks : List String)
    → Alike m m'
    → map (pick m) (unreserved ks) ≡ map (pick m') (unreserved ks)
unfolding unreserved
map-pick-Alike m m' [] a = refl
map-pick-Alike m m' (k ∷ ks) a = elim (Bool-cases (is_reserved k)) [
  | inl e ↦ rw (e, unreserved) (map-pick-Alike m m' ks a)
  | inr e ↦ rw (e, unreserved) (cc (a.same_value k e, map-pick-Alike m m' ks a))
]

-- A problem with its extensions given.
abbrev with_extensions : ProblemDetails → List (String × Any) → ProblemDetails
with_extensions p m = record p { extensions = some m }

-- What `fill` does to the extensions.
abbrev grow_id : String → String → Header → List (String × Any) → List (String × Any)
grow_id key field h m =
    if Header.get field h == "" then m else insert key (text (Header.get field h)) m

abbrev grow_trace : Request → List (String × Any) → List (String × Any)
grow_trace r m =
    if r.ctx.span.has_trace_id
    then insert "sampled" (boolean r.ctx.span.sampled)
        (insert "traceId" (text r.ctx.span.trace_id) m)
    else m

abbrev grow : Header → Request → List (String × Any) → List (String × Any)
grow h r m =
    grow_trace r
      (grow_id "correlationId" "X-Correlation-ID" h (grow_id "requestId" "X-Request-ID" h m))

grow_id-Alike :
    (key field : String) (h : Header) (m m' : List (String × Any))
    → Alike m m'
    → Alike (grow_id key field h m) (grow_id key field h m')
grow_id-Alike key field h m m' a = elim (Bool-cases (Header.get field h == "")) [
  | inl e ↦ rw e a
  | inr e ↦ rw e (insert-Alike key _ m m' a)
]

grow_trace-Alike :
    (r : Request) (m m' : List (String × Any))
    → Alike m m'
    → Alike (grow_trace r m) (grow_trace r m')
grow_trace-Alike r m m' a = elim (Bool-cases r.ctx.span.has_trace_id) [
  | inl e ↦ rw e (insert-Alike _ _ _ _ (insert-Alike _ _ m m' a))
  | inr e ↦ rw e a
]

grow-Alike :
    (h : Header) (r : Request) (m m' : List (String × Any))
    → Alike m m'
    → Alike (grow h r m) (grow h r m')
grow-Alike h r m m' a =
    grow_trace-Alike r _ _ (grow_id-Alike _ _ h _ _ (grow_id-Alike _ _ h m m' a))

abbrev tidy : Request → ProblemDetails → ProblemDetails
tidy r p = default_type (default_instance r.path (default_status p))

tidy_with :
    (r : Request) (p : ProblemDetails) (m : List (String × Any))
    → tidy r (with_extensions p m) ≡ with_extensions (tidy r p) m
unfolding default_type default_instance default_status
tidy_with r p m = ground arith

request_id_with :
    (h : Header) (p : ProblemDetails) (m : List (String × Any))
    → add_request_id h (with_extensions p m)
      ≡ with_extensions p (grow_id "requestId" "X-Request-ID" h m)
unfolding add_request_id
request_id_with h p m = ground arith

correlation_id_with :
    (h : Header) (p : ProblemDetails) (m : List (String × Any))
    → add_correlation_id h (with_extensions p m)
      ≡ with_extensions p (grow_id "correlationId" "X-Correlation-ID" h m)
unfolding add_correlation_id
correlation_id_with h p m = ground arith

trace_with :
    (r : Request) (p : ProblemDetails) (m : List (String × Any))
    → add_trace r (with_extensions p m) ≡ with_extensions p (grow_trace r m)
unfolding add_trace
trace_with r p m = ground arith

fill_with :
    (h : Header) (r : Request) (p : ProblemDetails) (m : List (String × Any))
    → fill h r (with_extensions p m) ≡ with_extensions (tidy r p) (grow h r m)
unfolding fill make_extensions
fill_with h r p m =
    let q = tidy r p in
    let m₁ = grow_id "requestId" "X-Request-ID" h m in
    let m₂ = grow_id "correlationId" "X-Correlation-ID" h m₁ in
    ap (λ s. add_trace r (add_correlation_id h (add_request_id h (make_extensions s))))
      (tidy_with r p m)
    ∙ ap (λ s. add_trace r (add_correlation_id h s)) (request_id_with h q m)
    ∙ ap (add_trace r) (correlation_id_with h q m₁)
    ∙ trace_with r q m₂

members_with :
    (p : ProblemDetails) (m m' : List (String × Any))
    → Alike m m'
    → members (with_extensions p m) ≡ members (with_extensions p m')
unfolding members
members_with p m m' a = cc (map-pick-Alike m m' (sort (keys m)) a, ap sort a.same_keys)

serve_with :
    (marshal : Any → Option String) (p : ProblemDetails) (m m' : List (String × Any)) (r : Request)
    (w : World)
    → Alike m m'
    → (serve marshal (with_extensions p m) r w).1 ≡ (serve marshal (with_extensions p m') r w).1
unfolding serve
serve_with marshal p m m' r w a =
    let h = w.request_header in
    let q = tidy r p in
    let n = grow h r m in
    let n' = grow h r m' in
    let same : marshal_json marshal (with_extensions q n)
        ≡ marshal_json marshal (with_extensions q n') =
      marshal_json-render marshal _
      ∙ ap (render marshal) (members_with q n n' (grow-Alike h r m m' a))
      ∙ sym (marshal_json-render marshal _) in
    rw (fill_with h r p m, fill_with h r p m', same) refl

violations-Alike : (a b : Any) → Alike (("violations", a) ∷ []) (("violations", b) ∷ [])
unfolding keys lookup is_reserved
violations-Alike a b = record {
  same_keys = refl;
  same_value = λ k r. ground (arith, eq_iff "violations" k, eq_iff k "violations");
}

-- What a client is sent for a problem with violations, by BadRequest and by UnprocessableEntity, is
-- the same for all violations, so long as there are any: neither the fields nor the messages reach
-- it, though the detail tells it to see them.
pub violations_dropped :
    (marshal : Any → Option String) (v u : String × List String)
    (vs us : List (String × List String)) (r : Request) (w : World)
    → ((serve marshal (bad_request (some (v ∷ vs))) r w).1
        ≡ (serve marshal (bad_request (some (u ∷ us))) r w).1)
      × ((serve marshal (unprocessable_entity (some (v ∷ vs))) r w).1
          ≡ (serve marshal (unprocessable_entity (some (u ∷ us))) r w).1)
unfolding bad_request unprocessable_entity
violations_dropped marshal v u vs us r w = (
  serve_with marshal (bad_request (some (v ∷ vs))) _ _ r w
      (violations-Alike (violations (v ∷ vs)) (violations (u ∷ us))),
  serve_with marshal (unprocessable_entity (some (v ∷ vs))) _ _ r w
      (violations-Alike (violations (v ∷ vs)) (violations (u ∷ us))),
)
