-- ===== src/Auth/Enforced.antt =====
-- Who is let through.
use yuna.Prelude.{
  String, true, false, Option, none, some, [], ◌≡◌, refl, ap, arith, if◌then◌else◌, Bool-cases, inl,
  inr,
}
use yuna.World.{
  Any, Principal, Context, Request, World, Outcome, returned, panicked, Panic, Handler,
  span_started, span_failed, span_principal, emit, log_error,
}
use yuna.Problem.{respond}
use yuna.Problem.Responses.{internal_server_error, unauthorized, forbidden}
use yuna.Auth.{
  AuthResult, principal, failed, raises, HttpAuthenticator, with_principal, principal_from_ctx,
  end_span, authenticate, authenticated, require_role, after_auth,
}

-- The principal that is read from a context is the one that was put there last; a nil principal is
-- read as none.
pub principal_from_ctx-with_principal :
    (ctx : Context) (p q : Option Principal)
    → principal_from_ctx (with_principal (with_principal ctx q) p)
      ≡ elim p [ none ↦ (none, false) | some a ↦ (some a, true) ]
unfolding principal_from_ctx with_principal
principal_from_ctx-with_principal ctx none q = refl
principal_from_ctx-with_principal ctx (some a) q = refl

module _ (marshal : Any → Option String) (start : Context → Context) where
  -- The request that the handler is given, and the world in which it starts.
  abbrev pub admitted : Request → Principal → Request
  admitted r p = record r { ctx = with_principal (start r.ctx) (some p) }

  abbrev pub begun : World → World
  begun w = emit (span_started "Authenticate") w

  abbrev pub marked : Principal → World → World
  marked p w = emit (span_principal p.name p.subject_id p.anonymous) (begun w)

  -- What becomes of a request by what the authenticator answers.
  abbrev pub verdict : String → Handler → Request → World → AuthResult → Outcome
  verdict role next r w (failed e) = returned (
      respond marshal (internal_server_error []) (record r { ctx = start r.ctx })
        (emit (span_failed e) (log_error (start r.ctx) "Error authenticating request" (begun w))))
  verdict role next r w (raises x) = panicked x (begun w)
  verdict role next r w (principal none) =
      panicked (Panic.other "nil pointer dereference") (begun w)
  verdict role next r w (principal (some p)) =
      if p.anonymous
      then returned (respond marshal unauthorized (admitted r p) (marked p w))
      else if p.has_role role
      then next (admitted r p) (marked p w)
      else returned (respond marshal forbidden (admitted r p) (marked p w))

  after_auth-verdict :
      (role : String) (next : Handler) (r : Request) (w : World) (a : AuthResult)
      → after_auth marshal start
          (require_role marshal start role next)
          (record r { ctx = start r.ctx })
          a
          (begun w)
        ≡ verdict role next r w a
  unfolding require_role with_principal
  after_auth-verdict role next r w (failed e) = refl
  after_auth-verdict role next r w (raises x) = refl
  after_auth-verdict role next r w (principal none) = refl
  after_auth-verdict role next r w (principal (some p)) = elim (Bool-cases (p.has_role role)) [
    | inl e ↦ rw e refl
    | inr e ↦ rw e refl
  ]

  -- Authenticate around RequireRole is the verdict on the authenticator's answer, and the span is ended.
  pub require_role-verdict :
      (auth : HttpAuthenticator) (role : String) (next : Handler) (r : Request) (w : World)
      → authenticate marshal start auth (require_role marshal start role next) r w
        ≡ end_span (
            verdict role next r w
              (auth (record r { ctx = start r.ctx }) (emit (span_started "Authenticate") w)))
  unfolding authenticate
  require_role-verdict auth role next r w = ap end_span (after_auth-verdict role next r w _)

  -- RequireRole checks all that Authenticated checks: to put Authenticated in front of it changes
  -- nothing.
  pub authenticated-require_role :
      (role : String) (next : Handler) (r : Request) (w : World)
      → authenticated marshal start (require_role marshal start role next) r w
        ≡ require_role marshal start role next r w
  unfolding authenticated require_role
  authenticated-require_role role next r w = ground arith
