-- ===== src/App/Crash.antt =====
-- What a client is sent when a route of a server panics, and when it does not.
use yuna.Prelude.{
  ℕ, String, Bool, true, false, Option, none, some, [], ◌≡◌, refl, ap, ◌∙◌, arith, eqb,
  if◌then◌else◌,
}
use mathlib.Core.Path.{subst}
use yuna.Http.Conn.{Conn, is_informational}
use yuna.World.{
  Any, Context, Request, World, conn_of, Outcome, returned, panicked, Panic, Handler, world_of,
  map_header, write_header, write, encode, log_error, emit,
}
use yuna.World.Sent.{IsUnsent}
use yuna.Problem.{ProblemDetails, serve, fill, marshal_json, problem_headers}
use yuna.Problem.Responses.{internal_server_error}
use yuna.Problem.Serve.{fill_fields}
use yuna.Auth.{end_span}
use yuna.Recover.{deferred, recovery}
use yuna.Middleware.Metrics.{leave, record_latency}
use yuna.App.Through.Unsent.{map_header-IsUnsent}
use yuna.App.Answered.{Leaves, serve_http_keeps_response}
use yuna.App.Order.{RunsInOrder}
use yuna.App.Through.{
  conn_of-IsUnsent, Answers, Gives, IsStable, IsCarried, LetsThrough, inner-Gives,
}
use yuna.App.{Yuna, Packages, default_middlewares, serve_http}

-- Requests in any world.
abbrev pub AnyWorld : World → Type 0
AnyWorld w = Unit

AnyWorld-IsCarried : (p : Packages) → IsCarried AnyWorld p
AnyWorld-IsCarried p = record {
  by_trace = λ uuid r w t. t;
  by_metrics = λ w t. t;
  by_event = λ e w t. t;
}

-- A panic before anything was sent.
abbrev pub HasCrashed : Outcome → Type 0
HasCrashed (returned w) = ⊥
HasCrashed (panicked (Panic.abort_handler) w) = ⊥
HasCrashed (panicked (Panic.other text) w) = IsUnsent w.writer

abbrev pub HasStatus : ℕ → Conn → Type 0
HasStatus n c = (c.wrote_header ≡ true) × (c.status ≡ n)

-- A return with a final status line sent.
abbrev pub HasSent : ℕ → Outcome → Type 0
HasSent n = Leaves (HasStatus n)

encode-HasSent :
    (json : Option String) (code : ℕ) (w : World)
    → IsUnsent w.writer
    → is_informational code ≡ false
    → HasSent code (returned (encode json (write_header code w)).0)
unfolding encode write write_header
encode-HasSent none code w u i = ground (arith, u, i)
encode-HasSent (some json) code w u i = ground (arith, u, i)

log_if-HasSent :
    (b : Bool) (ctx : Context) (msg : String) (w : World) (n : ℕ)
    → HasSent n (returned w)
    → HasSent n (returned (if b then log_error ctx msg w else w))
unfolding log_error emit
log_if-HasSent true ctx msg w n h = h
log_if-HasSent false ctx msg w n h = h

-- Whether or not the problem marshals.
pub serve-HasSent :
    (marshal : Any → Option String) (p : ProblemDetails) (r : Request) (w : World) (n : ℕ)
    → IsUnsent w.writer
    → (if eqb p.status_code 0 then 500 else p.status_code) ≡ n
    → is_informational n ≡ false
    → HasSent n (returned (serve marshal p r w).1)
unfolding serve
serve-HasSent marshal p r w n u e i =
    let q = fill w.request_header r p in
    let code = (fill_fields w.request_header r p).0 ∙ e in
    log_if-HasSent
      (encode (marshal_json marshal q)
        (write_header q.status_code (map_header (problem_headers q.headers) w))).1
      r.ctx "Error writing problem/error response to client" _ n
      (subst
        (λ m. HasSent m (
          returned
            (encode (marshal_json marshal q)
              (write_header q.status_code (map_header (problem_headers q.headers) w))).0))
        code
        (encode-HasSent (marshal_json marshal q) q.status_code
          (map_header (problem_headers q.headers) w)
          (map_header-IsUnsent (problem_headers q.headers) w u) (ap is_informational code ∙ i)))

deferred-500 :
    (marshal : Any → Option String) (r : Request) (o : Outcome)
    → HasCrashed o
    → (conn_of (world_of (deferred marshal r o)).writer).status ≡ 500
unfolding deferred log_error emit internal_server_error is_informational
deferred-500 marshal r (returned w) c = absurd c
deferred-500 marshal r (panicked (Panic.abort_handler) w) c = absurd c
deferred-500 marshal r (panicked (Panic.other text) w) c =
    (serve-HasSent marshal (internal_server_error []) r (log_error r.ctx "panic recovered" w) 500 c
      refl refl).1

end_span-HasCrashed : (o : Outcome) → HasCrashed o → HasCrashed (end_span o)
unfolding end_span emit
end_span-HasCrashed (returned w) c = absurd c
end_span-HasCrashed (panicked (Panic.abort_handler) w) c = absurd c
end_span-HasCrashed (panicked (Panic.other text) w) c = c

leave-HasCrashed :
    (p : Packages) (r : Request) (o : Outcome)
    → HasCrashed o
    → HasCrashed (leave (record_latency p.has p.pattern r o))
unfolding leave record_latency emit
leave-HasCrashed p r (returned w) c = absurd c
leave-HasCrashed p r (panicked (Panic.abort_handler) w) c = absurd c
leave-HasCrashed p r (panicked (Panic.other text) w) c = conn_of-IsUnsent w.writer c

crash-IsStable : (P : World → Type 0) (p : Packages) → IsStable P HasCrashed p
crash-IsStable P p = record { span = end_span-HasCrashed; latency = leave-HasCrashed p }

module _ (p : Packages) where
  -- A client whose request has not been answered yet is answered 500 where the route panics before
  -- it has sent anything, through the whole chain of the server: where chi runs the middlewares in
  -- order, otelhttp lets the panic through, and the authenticator, if there is one, answers with a
  -- principal.
  pub serve_http_sends_500 :
      (z : Yuna) (uuid : String) (route : Handler) (r : Request) (w : World)
      → RunsInOrder p
      → LetsThrough AnyWorld HasCrashed p
      → Answers z.config.authenticator
      → Gives AnyWorld HasCrashed route
      → IsUnsent w.writer
      → (conn_of (world_of (serve_http p z uuid route r w)).writer).status ≡ 500
  unfolding serve_http default_middlewares recovery
  serve_http_sends_500 z uuid route r w c b a k u = rw (c (default_middlewares p z uuid) route) (
      deferred-500 p.marshal r _ (
        inner-Gives AnyWorld HasCrashed p z uuid route (crash-IsStable AnyWorld p)
          (AnyWorld-IsCarried p) b a k r w tt u))

  -- No middleware of the server changes the status of an answer: where a route always returns with a
  -- given status sent, so does ServeHTTP for a request that has not been answered yet, if chi runs
  -- the middlewares in order, otelhttp lets the answer through, and the authenticator, if there is
  -- one, answers with a principal.
  pub serve_http_keeps_status :
      (n : ℕ) (z : Yuna) (uuid : String) (route : Handler) (r : Request) (w : World)
      → RunsInOrder p
      → LetsThrough AnyWorld (HasSent n) p
      → Answers z.config.authenticator
      → Gives AnyWorld (HasSent n) route
      → IsUnsent w.writer
      → HasSent n (serve_http p z uuid route r w)
  serve_http_keeps_status n z uuid route r w c b a k u =
      serve_http_keeps_response (HasStatus n) AnyWorld p z uuid route r w c (AnyWorld-IsCarried p) b
        a k tt u
