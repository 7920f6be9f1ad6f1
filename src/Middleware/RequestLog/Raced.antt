-- ===== src/Middleware/RequestLog/Raced.antt =====
-- logging.go under requests served at once: every `logger = logger.With(...)` reads the variable
-- that all requests share, makes a logger, and writes the variable, and the context is given what a
-- last read finds. The reads and writes of the requests interleave.
pub mod Kept
pub mod Lost
mod Tests
use yuna.Prelude.{
  ℕ, String, Bool, true, false, not, ◌==◌, Option, none, some, List, [], ◌∷◌, ◌++◌, ◌≡◌, refl, sym,
  ap, eqb, ◌∙◌, if◌then◌else◌, Bool-cases, inl, inr,
}
use yuna.Http.Header
use yuna.Http.Header.{Header}
use yuna.Log.Level.{Attr, text}
use yuna.Log.Logger.{Logger, with_attrs}
use yuna.World.{Request}
use yuna.Middleware.RequestLog.{extend, with_text, request_info}
use yuna.Middleware.RequestLog.Accumulated.{attrs_of, field}

-- A request in the middleware: the attributes that it still adds, the logger that it made and has
-- not written yet, and the one that its context was given.
pub record Serving : Type 0 where
  pub todo : List Attr
  pub made : Option Logger
  pub given : Option Logger

-- One access of a request to the variable, whose value goes from the first index to the third.
pub data Access : Logger → Serving → Logger → Serving → Type 0 where
  reads :
      {l : Logger} {a : Attr} {rest : List Attr}
      → Access l
          (record { todo = a ∷ rest; made = none; given = none })
          l
          (record { todo = rest; made = some (with_attrs (a ∷ []) l); given = none })
  writes :
      {l m : Logger} {rest : List Attr}
      → Access l
          (record { todo = rest; made = some m; given = none })
          m
          (record { todo = rest; made = none; given = none })
  hands_over :
      {l : Logger}
      → Access l
          (record { todo = []; made = none; given = none })
          l
          (record { todo = []; made = none; given = some l })

abbrev pub arrived : List Attr → Serving
arrived rest = record { todo = rest; made = none; given = none }

-- The variable, and the requests by their numbers.
pub record Shared : Type 0 where
  pub logger : Logger
  pub requests : ℕ → Serving

abbrev pub set_at : ℕ → Serving → (ℕ → Serving) → ℕ → Serving
set_at i v f j = if eqb i j then v else f j

-- What can become of the variable and of requests that add these attributes, from a logger.
module _ (attrs : ℕ → List Attr) (l : Logger) where
  pub data Raced : Shared → Type 0 where
    begin : Raced (record { logger = l; requests = λ i. arrived (attrs i) })
    next :
        {s : Shared} {m : Logger} {v : Serving}
        → Raced s
        → (i : ℕ) → Access s.logger (s.requests i) m v
        → Raced (record { logger = m; requests = set_at i v s.requests })

-- The accesses of one request, with no other request in between.
pub data Alone : Logger → Serving → Logger → Serving → Type 0 where
  here : {l : Logger} {v : Serving} → Alone l v l v
  access_then : {l m n : Logger} {u v w : Serving} → Access l u m v → Alone m v n w → Alone l u n w

abbrev pub add_all : List Attr → Logger → Logger
add_all [] l = l
add_all (a ∷ rest) l = add_all rest (with_attrs (a ∷ []) l)

abbrev finished : Logger → Serving
finished l = record { todo = []; made = none; given = some l }

pub added_then :
    (rest : List Attr) (l : Logger) {n : Logger} {w : Serving}
    → Alone (add_all rest l) (arrived []) n w
    → Alone l (arrived rest) n w
added_then [] l h = h
added_then (a ∷ rest) l h = access_then reads (access_then writes (added_then rest _ h))

add_all-append : (xs ys : List Attr) (l : Logger) → add_all (xs ++ ys) l ≡ add_all ys (add_all xs l)
add_all-append [] ys l = refl
add_all-append (a ∷ xs) ys l = add_all-append xs ys (with_attrs (a ∷ []) l)

module _ (info : List (String × String) → String) where
  with_text-add_all :
      (key value : String) (l : Logger)
      → with_text info key value l ≡ add_all (field info (value == "") key value) l
  with_text-add_all key value l = elim (Bool-cases (value == "")) [
    | inl e ↦ rw e refl
    | inr e ↦ rw e refl
  ]

  with_trace-add_all :
      (b : Bool) (value : String) (l : Logger)
      → (if b then with_attrs (record { key = "trace_id"; value = text value } ∷ []) l else l)
        ≡ add_all (field info (not b) "trace_id" value) l
  with_trace-add_all true value l = refl
  with_trace-add_all false value l = refl

  extend-add_all :
      (header : Header) (r : Request) (l : Logger)
      → extend info header r l ≡ add_all (attrs_of info header r) l
  unfolding extend
  extend-add_all header r l =
      let id = Header.get "X-Request-ID" header in
      let correlation = Header.get "X-Correlation-ID" header in
      let ids = field info (id == "") "request_id" id in
      let correlations = field info (correlation == "") "correlation_id" correlation in
      let traces = field info (not r.ctx.span.has_trace_id) "trace_id" r.ctx.span.trace_id in
      let last =
        record { key = "http_request"; value = text (info (request_info info header r)) } ∷ [] in
      let l1 = with_text info "request_id" id l in
      let l2 = with_text info "correlation_id" correlation l1 in
      let added =
        with_trace-add_all r.ctx.span.has_trace_id r.ctx.span.trace_id l2
        ∙ ap (add_all traces) (
            with_text-add_all "correlation_id" correlation l1
            ∙ ap (add_all correlations) (with_text-add_all "request_id" id l)) in
      let joined =
        add_all-append (ids ++ correlations ++ traces) last l
        ∙ ap (add_all last) (
            add_all-append (ids ++ correlations) traces l
            ∙ ap (add_all traces) (add_all-append ids correlations l)) in
      ap (with_attrs last) added ∙ sym joined

  -- A request that nothing interrupts makes the logger that `extend` makes, and is given it.
  pub extend-Alone :
      (header : Header) (r : Request) (l : Logger)
      → Alone l
          (arrived (attrs_of info header r))
          (extend info header r l)
          (finished (extend info header r l))
  extend-Alone header r l =
      rw (extend-add_all header r l)
        (added_then (attrs_of info header r) l (access_then hands_over here))
