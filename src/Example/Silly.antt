-- ===== src/Example/Silly.antt =====
-- What the example's routes behind its middlewares do.
use yuna.Prelude.{
  String, Bool, true, false, Option, some, List, [], ◌∷◌, ◌==◌, ◌≡◌, refl, ap, if◌then◌else◌,
}
use yuna.Text.{trim_space}
use yuna.Http.Header
use yuna.World.{
  Any, Context, Principal, Request, World, Outcome, returned, Handler, span_started, span_principal,
  emit,
}
use yuna.Problem.{respond}
use yuna.Problem.Responses.{unauthorized}
use yuna.Handler.{adapt, wrap}
use yuna.Handler.Nesting.{wrap-nest}
use yuna.Auth.{authenticate, authenticated, end_span, with_principal, principal_from_ctx}
use yuna.Example.{
  user_principal, token_authenticator, silly_middleware, silly_middleware2, silly_handler,
}

module _ (marshal : Any → Option String) (string_map : List (String × String) → Any)
    (start : Context → Context) (parse : String → Option String) where
  -- The route /api/silly behind the authentication of the server.
  abbrev pub silly_route : Handler
  silly_route = authenticate marshal start token_authenticator (
      wrap (silly_handler marshal string_map start parse)
        (authenticated marshal start ∷ silly_middleware ∷ silly_middleware2 ∷ []))

  abbrev user_of : Bool → Principal
  user_of true = user_principal "" "" true
  user_of false = user_principal "test-admin" "test-admin" false

  -- The user of a request, by whether its token is blank, and what the route is given then.
  abbrev pub is_blank : World → Bool
  is_blank w = trim_space (Header.get "X-API-Token" w.request_header) == ""

  abbrev pub request_of : Bool → Request → Request
  request_of b r = record r { ctx = with_principal (start r.ctx) (some (user_of b)) }

  abbrev pub world_for : Bool → World → World
  world_for b w =
      let p = user_of b in
      emit (span_principal p.name p.subject_id p.anonymous) (emit (span_started "Authenticate") w)

  abbrev pub inside : Handler
  inside =
      silly_middleware (silly_middleware2 (adapt (silly_handler marshal string_map start parse)))

  abbrev pub outcome_for : Bool → Request → World → Outcome
  outcome_for true r w =
      returned (respond marshal unauthorized (request_of true r) (world_for true w))
  outcome_for false r w = inside (request_of false r) (world_for false w)

  route-outcome_for :
      (b : Bool) (r : Request) (w : World)
      → authenticated marshal start inside (request_of b r) (world_for b w) ≡ outcome_for b r w
  unfolding authenticated principal_from_ctx with_principal user_principal
  route-outcome_for true r w = refl
  route-outcome_for false r w = refl

  user-if :
      (b : Bool)
      → (if b then user_principal "" "" true else user_principal "test-admin" "test-admin" false)
        ≡ user_of b
  user-if true = refl
  user-if false = refl

  -- The route /api/silly of the example answers 401, and prints nothing and runs no handler, for a
  -- request whose token is missing or blank; with any other token it runs the handler between the
  -- prints of its two middlewares, the first one outermost. The span of the authentication is ended
  -- in both cases.
  pub silly_route_guarded :
      (r : Request) (w : World) → silly_route r w ≡ end_span (outcome_for (is_blank w) r w)
  unfolding authenticate token_authenticator emit
  silly_route_guarded r w =
      rw
        (
          wrap-nest (silly_handler marshal string_map start parse)
              (authenticated marshal start ∷ silly_middleware ∷ silly_middleware2 ∷ []),
          user-if (is_blank w),
        )
        (ap end_span (route-outcome_for (is_blank w) r w))
