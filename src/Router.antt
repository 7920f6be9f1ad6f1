-- ===== src/Router.antt =====
-- router.go: Mux, a router over chi's. chi is a parameter: `Store` is all that its routers keep, and
-- `Handle` a pointer to one of them. An inline router shares the routes of the one it was made from.
pub mod Trees
pub mod Table
pub mod Lists
mod Tests
use yuna.Prelude.{String, List, [], ◌∷◌}
use yuna.World.{Handler, Middleware, Request, World, Outcome}
use yuna.Handler.{YunaHandler, wrap}

-- chi.Router, as far as the program calls it, and chi.NewRouter. A call at which chi panics ends the
-- program; the store then keeps that it has, and nothing is assumed of the calls after it.
pub record Chi (Store Handle : Type 0) : Type 0 where
  pub new_router : Store → Handle × Store
  pub serve : Handle → Store → Handler
  pub use_all : Handle → List Middleware → Store → Store
  pub with_all : Handle → List Middleware → Store → Handle × Store
  pub get : Handle → String → Handler → Store → Store
  pub post : Handle → String → Handler → Store → Store
  pub put : Handle → String → Handler → Store → Store
  pub delete : Handle → String → Handler → Store → Store
  pub patch : Handle → String → Handler → Store → Store
  pub options : Handle → String → Handler → Store → Store
  pub head : Handle → String → Handler → Store → Store
  pub connect : Handle → String → Handler → Store → Store
  pub trace : Handle → String → Handler → Store → Store
  pub method : Handle → String → String → Handler → Store → Store
  pub mount : Handle → String → Handler → Store → Store
  pub route : Handle → String → (Handle → Store → Store) → Store → Store
  pub group : Handle → (Handle → Store → Store) → Store → Store
  pub not_found : Handle → Handler → Store → Store
  pub method_not_allowed : Handle → Handler → Store → Store

pub record Mux (Handle : Type 0) : Type 0 where
  pub r : Handle

module _ {Store Handle : Type 0} (chi : Chi Store Handle) where
  abbrev mux_of : Handle × Store → Mux Handle × Store
  mux_of (h, s) = (record { r = h }, s)

  unfoldable pub new_mux : Store → Mux Handle × Store
  new_mux s = mux_of (chi.new_router s)

  unfoldable pub serve_http : Mux Handle → Store → Handler
  serve_http m s = chi.serve m.r s

  unfoldable pub use_all : Mux Handle → List Middleware → Store → Store
  use_all m middleware s = chi.use_all m.r middleware s

  unfoldable pub with_all : Mux Handle → List Middleware → Store → Mux Handle × Store
  with_all m middleware s = mux_of (chi.with_all m.r middleware s)

  unfoldable pub get : Mux Handle → String → YunaHandler → List Middleware → Store → Store
  unfolding wrap
  get m pattern fn middleware s = chi.get m.r pattern (wrap fn middleware) s

  unfoldable pub post : Mux Handle → String → YunaHandler → List Middleware → Store → Store
  unfolding wrap
  post m pattern fn middleware s = chi.post m.r pattern (wrap fn middleware) s

  unfoldable pub put : Mux Handle → String → YunaHandler → List Middleware → Store → Store
  unfolding wrap
  put m pattern fn middleware s = chi.put m.r pattern (wrap fn middleware) s

  unfoldable pub delete : Mux Handle → String → YunaHandler → List Middleware → Store → Store
  unfolding wrap
  delete m pattern fn middleware s = chi.delete m.r pattern (wrap fn middleware) s

  unfoldable pub patch : Mux Handle → String → YunaHandler → List Middleware → Store → Store
  unfolding wrap
  patch m pattern fn middleware s = chi.patch m.r pattern (wrap fn middleware) s

  unfoldable pub options : Mux Handle → String → YunaHandler → List Middleware → Store → Store
  unfolding wrap
  options m pattern fn middleware s = chi.options m.r pattern (wrap fn middleware) s

  unfoldable pub head : Mux Handle → String → YunaHandler → List Middleware → Store → Store
  unfolding wrap
  head m pattern fn middleware s = chi.head m.r pattern (wrap fn middleware) s

  unfoldable pub connect : Mux Handle → String → YunaHandler → List Middleware → Store → Store
  unfolding wrap
  connect m pattern fn middleware s = chi.connect m.r pattern (wrap fn middleware) s

  unfoldable pub trace : Mux Handle → String → YunaHandler → List Middleware → Store → Store
  unfolding wrap
  trace m pattern fn middleware s = chi.trace m.r pattern (wrap fn middleware) s

  unfoldable pub method :
      Mux Handle → String → String → YunaHandler → List Middleware → Store → Store
  unfolding wrap
  method m name pattern handler middleware s =
      chi.method m.r name pattern (wrap handler middleware) s

  unfoldable pub mount : Mux Handle → String → Handler → Store → Store
  mount m pattern h s = chi.mount m.r pattern h s

  unfoldable pub route : Mux Handle → String → (Mux Handle → Store → Store) → Store → Store
  route m pattern fn s = chi.route m.r pattern (λ h. fn (record { r = h })) s

  unfoldable pub group : Mux Handle → (Mux Handle → Store → Store) → Store → Store
  group m fn s = chi.group m.r (λ h. fn (record { r = h })) s
