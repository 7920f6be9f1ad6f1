-- ===== src/App/Denied.antt =====
-- What a server answers to a client that the guard of a route refuses.
use yuna.Prelude.{
  ℕ, String, false, none, some, ◌≡◌, sym, ap, [], if◌then◌else◌, Bool-cases, inl, inr,
}
use mathlib.Core.Path.{subst}
use yuna.Http.Header.{Header}
use yuna.Http.Conn.{is_informational}
use yuna.World.{Request, World, Outcome, panicked, Panic, Handler, emit, log_error}
use yuna.World.Sent.{IsUnsent}
use yuna.Problem.{respond}
use yuna.Problem.Responses.{internal_server_error, unauthorized, forbidden}
use yuna.Auth.{
  HttpAuthenticator, AuthResult, principal, failed, raises, authenticate, require_role, end_span,
}
use yuna.Auth.Enforced.{verdict, require_role-verdict, admitted, marked, begun}
use yuna.Recover.{recovery}
use yuna.Handler.Nesting.{nest}
use yuna.App.Order.{RunsInOrder}
use yuna.App.Through.Unsent.{HoldsWithId}
use yuna.App.Through.{Gives, LetsThrough, outer-Gives, header-IsCarried}
use yuna.App.Crash.{AnyWorld, HasStatus, HasSent, serve-HasSent}
use yuna.App.Answered.{Leaves-IsStable, deferred-Leaves}
use yuna.App.{Yuna, Packages, auth_middleware, default_middlewares, serve_http}

-- What the authenticator answers makes the client be refused a role with this status: an error, an
-- anonymous principal, or one that lacks the role.
abbrev pub RefusedWith : String → AuthResult → ℕ → Type 0
RefusedWith role (failed err) n = n ≡ 500
RefusedWith role (raises x) n = ⊥
RefusedWith role (principal none) n = ⊥
RefusedWith role (principal (some q)) n =
    if q.anonymous then n ≡ 401 else ((q.has_role role ≡ false) × (n ≡ 403))

module _ (p : Packages) (role : String) (next : Handler) where
  abbrev guarded : Handler
  guarded = require_role p.marshal p.start role next

  spanned : (n : ℕ) (o : Outcome) → HasSent n o → HasSent n (end_span o)
  spanned n = (Leaves-IsStable (HasStatus n) AnyWorld p).span

  verdict-HasSent :
      (n : ℕ) (r : Request) (w : World) (a : AuthResult)
      → RefusedWith role a n
      → IsUnsent w.writer
      → HasSent n (verdict p.marshal p.start role next r w a)
  unfolding respond internal_server_error unauthorized forbidden is_informational log_error emit
  verdict-HasSent n r w (failed err) h u =
      serve-HasSent p.marshal (internal_server_error []) _ _ n u (sym h) (ap is_informational h)
  verdict-HasSent n r w (raises x) h u = absurd h
  verdict-HasSent n r w (principal none) h u = absurd h
  verdict-HasSent n r w (principal (some q)) h u = elim (Bool-cases q.anonymous) [
    | inl e ↦
        let h : n ≡ 401 =
          subst (λ b. if b then n ≡ 401 else ((q.has_role role ≡ false) × (n ≡ 403))) e h in
        rw e (serve-HasSent p.marshal unauthorized _ _ n u (sym h) (ap is_informational h))
    | inr e ↦
        let h : (q.has_role role ≡ false) × (n ≡ 403) =
          subst (λ b. if b then n ≡ 401 else ((q.has_role role ≡ false) × (n ≡ 403))) e h in
        rw (e, h.0) (serve-HasSent p.marshal forbidden _ _ n u (sym h.1) (ap is_informational h.1))
  ]

  -- What a client gets by what the authenticator answers.
  abbrev pub Guarded : Request → World → AuthResult → Outcome → Type 0
  Guarded r w (failed err) o = HasSent 500 o
  Guarded r w (raises x) o = o ≡ end_span (panicked x (begun p.marshal p.start w))
  Guarded r w (principal none) o =
      o ≡ end_span (panicked (Panic.other "nil pointer dereference") (begun p.marshal p.start w))
  Guarded r w (principal (some q)) o =
      if q.anonymous
      then HasSent 401 o
      else if q.has_role role
      then o ≡ end_span (next (admitted p.marshal p.start r q) (marked p.marshal p.start q w))
      else HasSent 403 o

  authenticate-Gives :
      (H : Header → Type 0) (auth : HttpAuthenticator) (n : ℕ)
      → ((r : Request) (w : World) → H w.request_header → RefusedWith role (auth r w) n)
      → Gives (λ w. H w.request_header) (HasSent n) (authenticate p.marshal p.start auth guarded)
  unfolding emit
  authenticate-Gives H auth n f r w i u =
      rw (require_role-verdict p.marshal p.start auth role next r w)
        (spanned n _ (verdict-HasSent n r w _ (f _ _ i) u))

  -- Through the whole chain of a server, a client is answered 401 on a route behind RequireRole where
  -- the authenticator takes it for an anonymous principal, whatever its roles, 403 where its principal
  -- lacks the role, and 500 where the authenticator fails, whatever the handler of the route is: `H`
  -- tells such requests by their header, and holds whether or not the request has an id; chi runs the
  -- middlewares in order, otelhttp lets the answer through, and nothing has been sent before.
  pub serve_http_sends_refusal :
      (H : Header → Type 0) (auth : HttpAuthenticator) (n : ℕ) (z : Yuna) (uuid : String)
      (r : Request) (w : World)
      → RunsInOrder p
      → LetsThrough (λ w. H w.request_header) (HasSent n) p
      → HoldsWithId H
      → z.config.authenticator ≡ some auth
      → ((r : Request) (w : World) → H w.request_header → RefusedWith role (auth r w) n)
      → H w.request_header
      → IsUnsent w.writer
      → HasSent n (serve_http p z uuid guarded r w)
  unfolding serve_http default_middlewares recovery
  serve_http_sends_refusal H auth n z uuid r w c b j e f i u =
      rw (c (default_middlewares p z uuid) guarded) (
        deferred-Leaves (HasStatus n) p.marshal r _ (
          outer-Gives (λ w. H w.request_header) (HasSent n) p z uuid _
            (Leaves-IsStable (HasStatus n) (λ w. H w.request_header) p) (header-IsCarried H p j) b
            (subst
              (λ o.
                Gives (λ w. H w.request_header) (HasSent n) (nest (auth_middleware p o) guarded))
              (sym e) (authenticate-Gives H auth n f))
            r w i u))
