-- ===== src/App/Answered.antt =====
-- What the client of a server is sent by a route that returns.
use yuna.Prelude.{String, Option}
use yuna.Http.Conn.{Conn}
use yuna.World.{Any, Request, World, conn_of, Outcome, returned, panicked, Handler, emit}
use yuna.World.Sent.{IsUnsent}
use yuna.Auth.{end_span}
use yuna.Recover.{deferred, recovery}
use yuna.Middleware.Metrics.{leave, record_latency}
use yuna.App.Order.{RunsInOrder}
use yuna.App.Through.{Answers, Gives, IsCarried, IsStable, LetsThrough, inner-Gives}
use yuna.App.{Yuna, Packages, default_middlewares, serve_http}

-- A return that leaves the connection as described.
abbrev pub Leaves : (Conn → Type 0) → Outcome → Type 0
Leaves C (returned w) = C (conn_of w.writer)
Leaves C (panicked e w) = ⊥

module _ (C : Conn → Type 0) where
  end_span-Leaves : (o : Outcome) → Leaves C o → Leaves C (end_span o)
  unfolding end_span emit
  end_span-Leaves (returned w) h = h
  end_span-Leaves (panicked e w) h = absurd h

  leave-Leaves :
      (p : Packages) (r : Request) (o : Outcome)
      → Leaves C o
      → Leaves C (leave (record_latency p.has p.pattern r o))
  unfolding leave record_latency emit
  leave-Leaves p r (returned w) h = h
  leave-Leaves p r (panicked e w) h = absurd h

  pub deferred-Leaves :
      (marshal : Any → Option String) (r : Request) (o : Outcome)
      → Leaves C o
      → Leaves C (deferred marshal r o)
  unfolding deferred
  deferred-Leaves marshal r (returned w) h = h
  deferred-Leaves marshal r (panicked e w) h = absurd h

  pub Leaves-IsStable : (P : World → Type 0) (p : Packages) → IsStable P (Leaves C) p
  Leaves-IsStable P p = record { span = end_span-Leaves; latency = leave-Leaves p }

  -- No middleware of the server changes what a route sends: whatever holds of the connection that
  -- the route leaves, by its status, its header and its body, where it starts in a world of which
  -- `P` holds and nothing has been sent, holds of the connection that ServeHTTP leaves in such a
  -- world. `P` is something that a request's id, the headers of the trace middleware, the recording
  -- writer and events leave alone; chi runs the middlewares in order, otelhttp lets the answer
  -- through, and the authenticator, if there is one, answers with a principal.
  pub serve_http_keeps_response :
      (P : World → Type 0) (p : Packages) (z : Yuna) (uuid : String) (route : Handler) (r : Request)
      (w : World)
      → RunsInOrder p
      → IsCarried P p
      → LetsThrough P (Leaves C) p
      → Answers z.config.authenticator
      → Gives P (Leaves C) route
      → P w
      → IsUnsent w.writer
      → Leaves C (serve_http p z uuid route r w)
  unfolding serve_http default_middlewares recovery
  serve_http_keeps_response P p z uuid route r w c j b a k i u =
      rw (c (default_middlewares p z uuid) route) (
        deferred-Leaves p.marshal r _
          (inner-Gives P (Leaves C) p z uuid route (Leaves-IsStable P p) j b a k r w i u))
