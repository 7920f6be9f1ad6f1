-- ===== src/Auth/Tests.antt =====
-- Authentication on concrete principals.
use yuna.Prelude.{true, false, none, some, ◌≡◌, refl, ◌==◌}
use yuna.World.{Principal, returned, span_started, span_principal, emit}
use yuna.Auth.{
  principal, HttpAuthenticator, with_principal, principal_from_ctx, end_span, is_refused,
  authenticate, authenticated, require_role, nop_principal,
}
use yuna.Sample.{marshal, request, world, start, nothing}
use yuna.Auth.Enforced.{require_role-verdict, authenticated-require_role, verdict}

abbrev admin : Principal
admin = record {
  name = "ada";
  subject_id = "7";
  anonymous = false;
  has_role = λ role. role == "admin";
  attribute = λ key. none;
}

abbrev authenticator : HttpAuthenticator
authenticator r w = principal (some admin)

require_role-verdict_run :
    authenticate marshal start authenticator
      (require_role marshal start "admin" nothing)
      request
      world
    ≡ end_span (
        verdict marshal start "admin" nothing request world (
          authenticator
            (record request { ctx = start request.ctx })
            (emit (span_started "Authenticate") world)))
require_role-verdict_run =
    require_role-verdict marshal start authenticator "admin" nothing request world

-- The administrator is let in, and an anonymous principal is answered 401.
admin_admitted :
    verdict marshal start "admin" nothing request world (principal (some admin))
    ≡ returned (emit (span_principal "ada" "7" false) (emit (span_started "Authenticate") world))
admin_admitted = refl

anonymous_refused :
    is_refused (principal_from_ctx (with_principal request.ctx (some nop_principal))) ≡ true
unfolding is_refused principal_from_ctx with_principal nop_principal
anonymous_refused = refl

authenticated-require_role_run :
    authenticated marshal start (require_role marshal start "admin" nothing) request world
    ≡ require_role marshal start "admin" nothing request world
authenticated-require_role_run =
    authenticated-require_role marshal start "admin" nothing request world
