-- ===== src/Problem/Unordered/Served.antt =====
-- What a client is sent does not depend on the order in which a problem's extensions are visited.
use yuna.Prelude.{
  String, Bool, true, false, Option, some, List, [], lookup, ◌≡◌, refl, ap, arith, ◌==◌,
  DistinctKeys, insert-DistinctKeys, lookup-insert, if◌then◌else◌,
}
use yuna.Http.Header.{Header}
use yuna.World.{Any, Request, World}
use yuna.Problem.{
  ProblemDetails, entries, add_extension, default_status, default_instance, default_type,
  make_extensions, add_request_id, add_correlation_id, add_trace, fill, serve,
}
use yuna.Problem.Unordered.{Alike, with_extensions, marshal_json-Alike}

add_extension-Alike :
    (k : String) (v : Any) (p q : ProblemDetails)
    → Alike p q
    → Alike (add_extension k v p) (add_extension k v q)
unfolding add_extension
add_extension-Alike k v p q a = record {
  distinct = insert-DistinctKeys k v (entries p.extensions) a.distinct;
  also_distinct = insert-DistinctKeys k v (entries q.extensions) a.also_distinct;
  same = λ i.
      rw (lookup-insert k i v (entries p.extensions), lookup-insert k i v (entries q.extensions))
        (ap (λ r. if k == i then some v else r) (a.same i));
  rest = a.rest;
}

-- A change of the fields apart from the extensions.
field-Alike :
    (f : ProblemDetails → ProblemDetails)
    → ((p : ProblemDetails) → (f p).extensions ≡ p.extensions)
    → ((p : ProblemDetails) → with_extensions [] (f p) ≡ f (with_extensions [] p))
    → (p q : ProblemDetails) → Alike p q
    → Alike (f p) (f q)
field-Alike f keeps rest p q a = record {
  distinct = rw (keeps p) a.distinct;
  also_distinct = rw (keeps q) a.also_distinct;
  same = rw (keeps p, keeps q) a.same;
  rest = cc (rest p, rest q, ap f a.rest);
}

default_status-Alike :
    (p q : ProblemDetails) → Alike p q → Alike (default_status p) (default_status q)
unfolding default_status
default_status-Alike = field-Alike default_status (λ p. ground arith) (λ p. ground arith)

default_instance-Alike :
    (path : String) (p q : ProblemDetails)
    → Alike p q
    → Alike (default_instance path p) (default_instance path q)
unfolding default_instance
default_instance-Alike path =
    field-Alike (default_instance path) (λ p. ground arith) (λ p. ground arith)

default_type-Alike : (p q : ProblemDetails) → Alike p q → Alike (default_type p) (default_type q)
unfolding default_type
default_type-Alike = field-Alike default_type (λ p. ground arith) (λ p. ground arith)

make_extensions-Alike :
    (p q : ProblemDetails) → Alike p q → Alike (make_extensions p) (make_extensions q)
unfolding make_extensions
make_extensions-Alike p q a = record {
  distinct = a.distinct;
  also_distinct = a.also_distinct;
  same = a.same;
  rest = a.rest;
}

-- A step that may add an extension.
if-Alike :
    (b : Bool) (p q p' q' : ProblemDetails)
    → Alike p q
    → Alike p' q'
    → Alike (if b then p else p') (if b then q else q')
if-Alike true p q p' q' a a' = a
if-Alike false p q p' q' a a' = a'

add_request_id-Alike :
    (header : Header) (p q : ProblemDetails)
    → Alike p q
    → Alike (add_request_id header p) (add_request_id header q)
unfolding add_request_id
add_request_id-Alike header p q a = if-Alike _ p q _ _ a (add_extension-Alike _ _ p q a)

add_correlation_id-Alike :
    (header : Header) (p q : ProblemDetails)
    → Alike p q
    → Alike (add_correlation_id header p) (add_correlation_id header q)
unfolding add_correlation_id
add_correlation_id-Alike header p q a = if-Alike _ p q _ _ a (add_extension-Alike _ _ p q a)

add_trace-Alike :
    (r : Request) (p q : ProblemDetails) → Alike p q → Alike (add_trace r p) (add_trace r q)
unfolding add_trace
add_trace-Alike r p q a =
    if-Alike _ _ _ p q (add_extension-Alike _ _ _ _ (add_extension-Alike _ _ p q a)) a

fill-Alike :
    (header : Header) (r : Request) (p q : ProblemDetails)
    → Alike p q
    → Alike (fill header r p) (fill header r q)
unfolding fill
fill-Alike header r p q a = add_trace-Alike r _ _ (
    add_correlation_id-Alike header _ _ (
      add_request_id-Alike header _ _ (
        make_extensions-Alike _ _ (
          default_type-Alike _ _
            (default_instance-Alike r.path _ _ (default_status-Alike p q a))))))

module _ (marshal : Any → Option String) where
  -- Two problems that differ at most in the order in which their extensions are visited, each with
  -- every key once, are answered the same: `ServeHTTP` leaves the same connection and the same
  -- events, whatever ServeHTTP adds to the extensions.
  pub serve_unordered :
      (p : ProblemDetails) (m n : List (String × Any)) (r : Request) (w : World)
      → DistinctKeys m
      → DistinctKeys n
      → ((k : String) → lookup k m ≡ lookup k n)
      → (serve marshal (with_extensions m p) r w).1 ≡ (serve marshal (with_extensions n p) r w).1
  unfolding serve
  serve_unordered p m n r w d e h =
      let a =
        fill-Alike w.request_header r (with_extensions m p) (with_extensions n p)
          (record { distinct = d; also_distinct = e; same = h; rest = refl }) in
      let status = ap (λ x. x.status_code) a.rest in
      let headers = ap (λ x. x.headers) a.rest in
      let body = marshal_json-Alike marshal _ _ a in rw (body, status, headers) refl
