-- ===== src/Auth.antt =====
-- auth.go: authentication, and the two middlewares that enforce it.
pub mod Enforced
mod Tests
use yuna.Prelude.{String, Bool, true, false, not, Option, none, some, List, [], ◌∷◌, if◌then◌else◌}
use yuna.World.{
  Any, Principal, Context, ContextValue, context_key_principal, a_principal, value_of, with_value,
  Request, World, Outcome, returned, panicked, Panic, Handler, Middleware, Event, span_started,
  span_failed, span_principal, span_ended, emit, log_error,
}
use yuna.Problem.{respond}
use yuna.Problem.Responses.{internal_server_error, unauthorized, forbidden}

-- What comes of a call of an HttpAuthenticator: a principal, which may be nil, an error, or a panic.
pub data AuthResult : Type 0 where
  principal : Option Principal → AuthResult
  failed : String → AuthResult
  raises : Panic → AuthResult

abbrev pub HttpAuthenticator : Type 0
HttpAuthenticator = Request → World → AuthResult

unfoldable pub with_principal : Context → Option Principal → Context
unfolding with_value
with_principal ctx p = with_value context_key_principal (a_principal p) ctx

-- The type assertion to Principal, which a nil interface does not pass.
abbrev as_principal : Option ContextValue → Option Principal × Bool
as_principal (some (a_principal (some p))) = (some p, true)
as_principal _ = (none, false)

unfoldable pub principal_from_ctx : Context → Option Principal × Bool
unfolding value_of
principal_from_ctx ctx = as_principal (value_of context_key_principal ctx.values)

-- `defer span.End()`
unfoldable pub end_span : Outcome → Outcome
unfolding emit
end_span (returned w) = returned (emit span_ended w)
end_span (panicked p w) = panicked p (emit span_ended w)

-- !ok || principal == nil || principal.Anonymous()
unfoldable pub is_refused : Option Principal × Bool → Bool
is_refused (_, false) = true
is_refused (none, true) = true
is_refused (some p, true) = p.anonymous

-- principal.HasRole(role), where there is a principal
abbrev pub has_role : String → Option Principal → Bool
has_role role none = false
has_role role (some p) = p.has_role role

-- `marshal` is json.Marshal, and `start` is what otel's tracer makes of a context when a span starts.
module _ (marshal : Any → Option String) (start : Context → Context) where
  -- The body of `Authenticate` after the call of the authenticator.
  abbrev pub after_auth : Handler → Request → AuthResult → World → Outcome
  after_auth next r (failed err) w = returned (
      respond marshal (internal_server_error []) r
        (emit (span_failed err) (log_error r.ctx "Error authenticating request" w)))
  after_auth next r (raises x) w = panicked x w
  after_auth next r (principal none) w = panicked (Panic.other "nil pointer dereference") w
  after_auth next r (principal (some p)) w =
      next (record r { ctx = with_principal r.ctx (some p) })
        (emit (span_principal p.name p.subject_id p.anonymous) w)

  -- A nil authenticator panics when the middleware is made, and is left out.
  unfoldable pub authenticate : HttpAuthenticator → Middleware
  unfolding end_span emit
  authenticate auth next r w =
      let r = record r { ctx = start r.ctx } in
      let w = emit (span_started "Authenticate") w in end_span (after_auth next r (auth r w) w)

  unfoldable pub authenticated : Middleware
  unfolding is_refused principal_from_ctx
  authenticated next r w =
      if is_refused (principal_from_ctx r.ctx)
      then returned (respond marshal unauthorized r w)
      else next r w

  unfoldable pub require_role : String → Middleware
  unfolding is_refused principal_from_ctx
  require_role role next r w =
      if is_refused (principal_from_ctx r.ctx)
      then returned (respond marshal unauthorized r w)
      else if not (has_role role (principal_from_ctx r.ctx).0)
      then returned (respond marshal forbidden r w)
      else next r w

unfoldable pub nop_principal : Principal
nop_principal = record {
  name = "";
  subject_id = "";
  anonymous = true;
  has_role = λ role. false;
  attribute = λ key. none;
}

unfoldable pub nop_authenticator : HttpAuthenticator
unfolding nop_principal
nop_authenticator r w = principal (some nop_principal)
