-- ===== src/App/Routes.antt =====
-- yuna.go: the routing methods of Yuna, which call the router of the server, z.router.
use yuna.Prelude.{String, List}
use yuna.World.{Handler, Middleware}
use yuna.Handler.{YunaHandler, wrap}
use yuna.Router.{Chi, Mux}

module _ {Store Handle : Type 0} (chi : Chi Store Handle) where
  unfoldable pub serve : Handle → Store → Handler
  serve router s = chi.serve router s

  unfoldable pub use_all : Handle → List Middleware → Store → Store
  use_all router middleware s = chi.use_all router middleware s

  unfoldable pub with_all : Handle → List Middleware → Store → Mux Handle × Store
  with_all router middleware s =
      let (h, s) = chi.with_all router middleware s in (record { r = h }, s)

  unfoldable pub get : Handle → String → YunaHandler → List Middleware → Store → Store
  unfolding wrap
  get router pattern fn middleware s = chi.get router pattern (wrap fn middleware) s

  unfoldable pub post : Handle → String → YunaHandler → List Middleware → Store → Store
  unfolding wrap
  post router pattern fn middleware s = chi.post router pattern (wrap fn middleware) s

  unfoldable pub put : Handle → String → YunaHandler → List Middleware → Store → Store
  unfolding wrap
  put router pattern fn middleware s = chi.put router pattern (wrap fn middleware) s

  unfoldable pub delete : Handle → String → YunaHandler → List Middleware → Store → Store
  unfolding wrap
  delete router pattern fn middleware s = chi.delete router pattern (wrap fn middleware) s

  unfoldable pub patch : Handle → String → YunaHandler → List Middleware → Store → Store
  unfolding wrap
  patch router pattern fn middleware s = chi.patch router pattern (wrap fn middleware) s

  unfoldable pub options : Handle → String → YunaHandler → List Middleware → Store → Store
  unfolding wrap
  options router pattern fn middleware s = chi.options router pattern (wrap fn middleware) s

  unfoldable pub head : Handle → String → YunaHandler → List Middleware → Store → Store
  unfolding wrap
  head router pattern fn middleware s = chi.head router pattern (wrap fn middleware) s

  unfoldable pub connect : Handle → String → YunaHandler → List Middleware → Store → Store
  unfolding wrap
  connect router pattern fn middleware s = chi.connect router pattern (wrap fn middleware) s

  unfoldable pub trace : Handle → String → YunaHandler → List Middleware → Store → Store
  unfolding wrap
  trace router pattern fn middleware s = chi.trace router pattern (wrap fn middleware) s

  unfoldable pub method : Handle → String → String → YunaHandler → List Middleware → Store → Store
  unfolding wrap
  method router name pattern handler middleware s =
      chi.method router name pattern (wrap handler middleware) s

  unfoldable pub mount : Handle → String → Handler → Store → Store
  mount router pattern h s = chi.mount router pattern h s

  unfoldable pub route : Handle → String → (Mux Handle → Store → Store) → Store → Store
  route router pattern fn s = chi.route router pattern (λ h. fn (record { r = h })) s

  unfoldable pub group : Handle → (Mux Handle → Store → Store) → Store → Store
  group router fn s = chi.group router (λ h. fn (record { r = h })) s
