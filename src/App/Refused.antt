-- ===== src/App/Refused.antt =====
-- What a server lets a client without a principal see of a protected route: nothing.
use yuna.Prelude.{String, true, Option, none, some, [], ◌∷◌, ◌≡◌, refl, sym, ap, ◌∙◌}
use yuna.World.{Request, World, Handler, emit, span_started}
use yuna.Auth.{
  HttpAuthenticator, AuthResult, principal, failed, raises, after_auth, authenticate, authenticated,
  end_span, principal_from_ctx, with_principal,
}
use yuna.Handler.Nesting.{nest}
use yuna.Recover.{recovery}
use yuna.App.{
  Yuna, Packages, trace_middleware, metrics_middleware, log_middleware, auth_middleware,
  default_middlewares, serve_http,
}
use yuna.App.Order.{RunsInOrder}

-- No principal that is not anonymous: an error, a panic, nil or an anonymous one.
abbrev pub IsRefusal : AuthResult → Type 0
IsRefusal (failed err) = Unit
IsRefusal (raises x) = Unit
IsRefusal (principal none) = Unit
IsRefusal (principal (some q)) = q.anonymous ≡ true

abbrev pub Refuses : HttpAuthenticator → Type 0
Refuses auth = (r : Request) (w : World) → IsRefusal (auth r w)

module _ (p : Packages) (h h' : Handler) where
  abbrev guarded : Handler → Handler
  guarded = authenticated p.marshal p.start

  after_auth-same :
      (r : Request) (a : AuthResult) (w : World)
      → IsRefusal a
      → after_auth p.marshal p.start (guarded h) r a w
        ≡ after_auth p.marshal p.start (guarded h') r a w
  unfolding authenticated principal_from_ctx with_principal
  after_auth-same r (failed err) w i = refl
  after_auth-same r (raises x) w i = refl
  after_auth-same r (principal none) w i = refl
  after_auth-same r (principal (some q)) w i = rw i refl

  authenticate-same :
      (auth : HttpAuthenticator)
      → Refuses auth
      → authenticate p.marshal p.start auth (guarded h)
        ≡ authenticate p.marshal p.start auth (guarded h')
  unfolding authenticate
  authenticate-same auth a = λ i r w.
      let r' = record r { ctx = p.start r.ctx } in
      let w' = emit (span_started "Authenticate") w in
      end_span (after_auth-same r' (auth r' w') w' (a r' w') i)

  nest-same :
      (auth : HttpAuthenticator) (o : Option HttpAuthenticator)
      → o ≡ some auth
      → Refuses auth
      → nest (auth_middleware p o) (guarded h) ≡ nest (auth_middleware p o) (guarded h')
  nest-same auth o e a =
      ap (λ x. nest (auth_middleware p x) (guarded h)) e
      ∙ authenticate-same auth a
      ∙ sym (ap (λ x. nest (auth_middleware p x) (guarded h')) e)

  -- Where chi runs the middlewares in order, and the server's authenticator only ever answers an
  -- error, nil or an anonymous principal, a route behind Authenticated is the same to the client, the logs and the meters whatever its
  -- handler is: the handler has no way to be seen, through the whole chain of the server.
  pub serve_http_hides :
      (z : Yuna) (uuid : String) (auth : HttpAuthenticator) (r : Request) (w : World)
      → RunsInOrder p
      → z.config.authenticator ≡ some auth
      → Refuses auth
      → serve_http p z uuid (guarded h) r w ≡ serve_http p z uuid (guarded h') r w
  unfolding serve_http default_middlewares
  serve_http_hides z uuid auth r w b e a =
      let ms = default_middlewares p z uuid in
      ap (λ g. g r w) (b ms (guarded h))
      ∙ ap
          (λ g.
            nest
              (recovery p.marshal
                ∷ trace_middleware p z uuid
                ∷ metrics_middleware p
                ∷ log_middleware p z
                ∷ [])
              g r w)
          (nest-same auth z.config.authenticator e a)
      ∙ sym (ap (λ g. g r w) (b ms (guarded h')))
