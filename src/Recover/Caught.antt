-- ===== src/Recover/Caught.antt =====
-- What a client is sent when a handler panics.
use Prim.Native.String
use yuna.Prelude.{String, Option, some, [], ◌∷◌, ◌++◌, ◌≡◌, refl, sym, ap, ◌∙◌}
use mathlib.Core.Path.{subst}
use yuna.Http.Header.{values_of}
use yuna.Http.Conn.{is_informational, body_allowed}
use yuna.World.{
  world_of, Any, Request, World, Outcome, returned, panicked, Panic, abort_handler, Handler, logged,
  conn_of, log_error, logger_from_ctx,
}
use yuna.Log.Level.{level_error}
use yuna.World.Sent.{IsUnsent}
use yuna.Problem.{fill, marshal_json}
use yuna.Problem.Responses.{internal_server_error}
use yuna.Problem.Serve.{serve_sent, fill_fields}
use yuna.Recover.{deferred, recovery}

deferred_returns :
    (marshal : Any → Option String) (r : Request) (o : Outcome)
    → deferred marshal r o ≡ returned (world_of (deferred marshal r o))
unfolding deferred
deferred_returns marshal r (returned w) = refl
deferred_returns marshal r (panicked abort_handler w) = refl
deferred_returns marshal r (panicked (Panic.other text) w) = refl

-- Under the recovery middleware no panic gets out, whatever the handler does.
pub recovery_stops_panics :
    (marshal : Any → Option String) (next : Handler) (r : Request) (w : World)
    → recovery marshal next r w ≡ returned (world_of (recovery marshal next r w))
unfolding recovery
recovery_stops_panics marshal next r w = deferred_returns marshal r (next r w)

-- A handler that panics with http.ErrAbortHandler, so that the server breaks the response off, is
-- taken under the recovery middleware for one that has finished: what it did before stands as the
-- whole response, and nothing is logged.
pub recovery_swallows_abort :
    (marshal : Any → Option String) (next : Handler) (r : Request) (w w' : World)
    → next r w ≡ panicked abort_handler w'
    → recovery marshal next r w ≡ returned w'
unfolding recovery
recovery_swallows_abort marshal next r w w' e = ap (deferred marshal r) e

-- What a 500 for a panic, after the world `w'`, looks like.
abbrev Is500 : Request → World → String → World → Type 0
Is500 r w' json out =
    ((conn_of out.writer).status ≡ 500)
    × (values_of "Content-Type" (conn_of out.writer).sent ≡ "application/problem+json" ∷ [])
    × ((conn_of out.writer).body ≡ (conn_of w'.writer).body ++ String.◌++◌ json "\n" ∷ [])
    × (out.events
        ≡ w'.events ++ logged (logger_from_ctx r.ctx w'.logs) level_error "panic recovered" ∷ [])

deferred-Is500 :
    (marshal : Any → Option String) (r : Request) (w' : World) (text json : String)
    → IsUnsent w'.writer
    → marshal_json marshal (fill w'.request_header r (internal_server_error [])) ≡ some json
    → Is500 r w' json (world_of (deferred marshal r (panicked (Panic.other text) w')))
unfolding deferred log_error internal_server_error is_informational body_allowed
deferred-Is500 marshal r w' text json u m =
    let code = (fill_fields w'.request_header r (internal_server_error [])).0 in
    let (status, content, _, body, events) =
      serve_sent marshal (internal_server_error []) r (log_error r.ctx "panic recovered" w') json u
        (ap is_informational code) (ap body_allowed code) m in
    (status ∙ code, content, body, events)

-- Where a handler panics before it has sent anything, and the problem marshals, the client is sent
-- 500 and the problem, and one error is logged.
pub recovery_sends_500 :
    (marshal : Any → Option String) (next : Handler) (r : Request) (w w' : World)
    (text json : String)
    → next r w ≡ panicked (Panic.other text) w'
    → IsUnsent w'.writer
    → marshal_json marshal (fill w'.request_header r (internal_server_error [])) ≡ some json
    → let out = world_of (recovery marshal next r w) in
      ((conn_of out.writer).status ≡ 500)
      × (values_of "Content-Type" (conn_of out.writer).sent ≡ "application/problem+json" ∷ [])
      × ((conn_of out.writer).body ≡ (conn_of w'.writer).body ++ String.◌++◌ json "\n" ∷ [])
      × (out.events
          ≡ w'.events ++ logged (logger_from_ctx r.ctx w'.logs) level_error "panic recovered" ∷ [])
unfolding recovery
recovery_sends_500 marshal next r w w' text json e u m =
    subst (λ o. Is500 r w' json (world_of (deferred marshal r o))) (sym e)
      (deferred-Is500 marshal r w' text json u m)
