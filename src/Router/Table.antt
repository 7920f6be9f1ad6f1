-- ===== src/Router/Table.antt =====
-- The routes that an application's registrations come to.
use yuna.Prelude.{ℕ, String, Bool, true, false, List, [], ◌∷◌, ◌++◌, ◌≡◌, refl, sym, ap, ◌∙◌, map}
use mathlib.Core.List.{append_assoc, append-nil}
use yuna.World.{Handler, Middleware}
use yuna.Handler.{YunaHandler, adapt, wrap}
use yuna.Handler.Nesting.{nest, wrap-nest}
use yuna.Router.{Chi, Mux}
use yuna.Router
use yuna.Router.Trees.{
  Entry, serves, routed, View, Trees, change, fresh, close, add_route, add_routes, add_mount, shut,
  add_entry, takes_route, takes_mount, takes_routes, view-change, and_left, and_right,
}

-- One call of an application: `router.With(inline).Get(pattern, handler, middleware)`, or with
-- another verb, or with Method and the name of one.
pub data Verb : Type 0 where
  get post put delete patch options head connect trace : Verb
  named : String → Verb

pub record Registration : Type 0 where
  pub inline : List Middleware
  pub verb : Verb
  pub pattern : String
  pub handler : YunaHandler
  pub middleware : List Middleware

abbrev pub method_of : Verb → String
method_of get = "GET"
method_of post = "POST"
method_of put = "PUT"
method_of delete = "DELETE"
method_of patch = "PATCH"
method_of options = "OPTIONS"
method_of head = "HEAD"
method_of connect = "CONNECT"
method_of trace = "TRACE"
method_of (named name) = name

-- What chi documents of its routers, where no call panics and no route replaces another: each verb is
-- Method with that verb's name; a route stands behind the middlewares of its inline router, which
-- are those of the router that it was made from and its own, and a new router has a tree of its own,
-- with nothing in it; Use adds neither a route nor a mount and needs a router that was not used yet,
-- nor does a handler for a missing route; Mount adds one mount, and Route mounts a new router that was
-- given to the function. `look` is what the store is as trees, and `inline` the middlewares of an
-- inline router. Nothing is said of a registration that the tree does not take, which chi panics at,
-- or which may replace an earlier one, nor of Use on an inline router.
pub record Documented {Store Handle : Type 0} (chi : Chi Store Handle) : Type 0 where
  pub look : Store → Trees
  pub tree : Handle → ℕ
  pub is_inline : Handle → Bool
  pub inline : Handle → Store → List Middleware
  pub tree-new : (s : Store) → tree (chi.new_router s).0 ≡ (look s).made
  pub look-new : (s : Store) → look (chi.new_router s).1 ≡ fresh (look s)
  pub is_inline-new : (s : Store) → is_inline (chi.new_router s).0 ≡ false
  pub inline-root : (h : Handle) (s : Store) → is_inline h ≡ false → inline h s ≡ []
  pub get-method :
      (h : Handle) (pattern : String) (f : Handler) (s : Store)
      → chi.get h pattern f s ≡ chi.method h "GET" pattern f s
  pub post-method :
      (h : Handle) (pattern : String) (f : Handler) (s : Store)
      → chi.post h pattern f s ≡ chi.method h "POST" pattern f s
  pub put-method :
      (h : Handle) (pattern : String) (f : Handler) (s : Store)
      → chi.put h pattern f s ≡ chi.method h "PUT" pattern f s
  pub delete-method :
      (h : Handle) (pattern : String) (f : Handler) (s : Store)
      → chi.delete h pattern f s ≡ chi.method h "DELETE" pattern f s
  pub patch-method :
      (h : Handle) (pattern : String) (f : Handler) (s : Store)
      → chi.patch h pattern f s ≡ chi.method h "PATCH" pattern f s
  pub options-method :
      (h : Handle) (pattern : String) (f : Handler) (s : Store)
      → chi.options h pattern f s ≡ chi.method h "OPTIONS" pattern f s
  pub head-method :
      (h : Handle) (pattern : String) (f : Handler) (s : Store)
      → chi.head h pattern f s ≡ chi.method h "HEAD" pattern f s
  pub connect-method :
      (h : Handle) (pattern : String) (f : Handler) (s : Store)
      → chi.connect h pattern f s ≡ chi.method h "CONNECT" pattern f s
  pub trace-method :
      (h : Handle) (pattern : String) (f : Handler) (s : Store)
      → chi.trace h pattern f s ≡ chi.method h "TRACE" pattern f s
  pub look-method :
      (h : Handle) (name pattern : String) (f : Handler) (s : Store)
      → takes_route name pattern ((look s).view (tree h)).routes ((look s).view (tree h)).mounts
        ≡ true
      → look (chi.method h name pattern f s)
        ≡ add_route (tree h) (name, pattern, nest (inline h s) f) (look s)
  pub inline-method :
      (k h : Handle) (name pattern : String) (f : Handler) (s : Store)
      → inline k (chi.method h name pattern f s) ≡ inline k s
  pub tree-with :
      (h : Handle) (ms : List Middleware) (s : Store) → tree (chi.with_all h ms s).0 ≡ tree h
  pub look-with :
      (h : Handle) (ms : List Middleware) (s : Store)
      → look (chi.with_all h ms s).1 ≡ close (tree h) (look s)
  pub inline-with :
      (h : Handle) (ms : List Middleware) (s : Store)
      → inline (chi.with_all h ms s).0 (chi.with_all h ms s).1 ≡ inline h s ++ ms
  pub inline-with_kept :
      (h : Handle) (ms : List Middleware) (s : Store)
      → inline h (chi.with_all h ms s).1 ≡ inline h s
  pub look-mount :
      (h : Handle) (pattern : String) (f : Handler) (s : Store)
      → takes_mount pattern ((look s).view (tree h)).routes ((look s).view (tree h)).mounts ≡ true
      → look (chi.mount h pattern f s) ≡ add_mount (tree h) (pattern, serves f) (look s)
  pub look-route :
      (h : Handle) (pattern : String) (f : Handle → Store → Store) (s : Store)
      → let k = (chi.new_router s).0 in
        let t = look (f k (chi.new_router s).1) in
        takes_mount pattern (t.view (tree h)).routes (t.view (tree h)).mounts ≡ true
        → look (chi.route h pattern f s) ≡ add_mount (tree h) (pattern, routed (tree k)) t
  pub look-use_all :
      (h : Handle) (ms : List Middleware) (s : Store)
      → is_inline h ≡ false
      → ((look s).view (tree h)).is_open ≡ true
      → look (chi.use_all h ms s) ≡ look s
  pub look-not_found : (h : Handle) (f : Handler) (s : Store) → look (chi.not_found h f s) ≡ look s
  pub look-method_not_allowed :
      (h : Handle) (f : Handler) (s : Store) → look (chi.method_not_allowed h f s) ≡ look s

-- The route of a registration on a router with these inline middlewares: they, then its own inline
-- ones, then those of the call, then the handler.
abbrev pub entry : List Middleware → Registration → Entry
entry outer g =
    (method_of g.verb, g.pattern, nest (outer ++ g.inline) (nest g.middleware (adapt g.handler)))

module _ {Store Handle : Type 0} (chi : Chi Store Handle) where
  -- The call on a router.
  abbrev pub call : Verb → Mux Handle → String → YunaHandler → List Middleware → Store → Store
  call get = Router.get chi
  call post = Router.post chi
  call put = Router.put chi
  call delete = Router.delete chi
  call patch = Router.patch chi
  call options = Router.options chi
  call head = Router.head chi
  call connect = Router.connect chi
  call trace = Router.trace chi
  call (named name) = λ m. Router.method chi m name

  abbrev register_on : Registration → Mux Handle × Store → Store
  register_on g (m, s) = call g.verb m g.pattern g.handler g.middleware s

  abbrev pub register : Mux Handle → Registration → Store → Store
  register m g s = register_on g (Router.with_all chi m g.inline s)

  abbrev pub register_each : Mux Handle → List Registration → Store → Store
  register_each m [] s = s
  register_each m (g ∷ gs) s = register_each m gs (register m g s)

  module _ (d : Documented chi) where
    pub call-method :
        (v : Verb) (m : Mux Handle) (pattern : String) (fn : YunaHandler) (ms : List Middleware)
        (s : Store)
        → call v m pattern fn ms s ≡ chi.method m.r (method_of v) pattern (wrap fn ms) s
    unfolding Router.get Router.post Router.put Router.delete Router.patch Router.options
        Router.head Router.connect Router.trace Router.method
    call-method get m pattern fn ms s = d.get-method m.r pattern (wrap fn ms) s
    call-method post m pattern fn ms s = d.post-method m.r pattern (wrap fn ms) s
    call-method put m pattern fn ms s = d.put-method m.r pattern (wrap fn ms) s
    call-method delete m pattern fn ms s = d.delete-method m.r pattern (wrap fn ms) s
    call-method patch m pattern fn ms s = d.patch-method m.r pattern (wrap fn ms) s
    call-method options m pattern fn ms s = d.options-method m.r pattern (wrap fn ms) s
    call-method head m pattern fn ms s = d.head-method m.r pattern (wrap fn ms) s
    call-method connect m pattern fn ms s = d.connect-method m.r pattern (wrap fn ms) s
    call-method trace m pattern fn ms s = d.trace-method m.r pattern (wrap fn ms) s
    call-method (named name) m pattern fn ms s = refl

    abbrev pub view_of : Mux Handle → Store → View
    view_of m s = (d.look s).view (d.tree m.r)

    pub look-call :
        (v : Verb) (m : Mux Handle) (pattern : String) (fn : YunaHandler) (ms : List Middleware)
        (s : Store)
        → takes_route (method_of v) pattern (view_of m s).routes (view_of m s).mounts ≡ true
        → d.look (call v m pattern fn ms s)
          ≡ add_route
              (d.tree m.r)
              (method_of v, pattern, nest (d.inline m.r s) (wrap fn ms))
              (d.look s)
    look-call v m pattern fn ms s a =
        ap d.look (call-method v m pattern fn ms s)
        ∙ d.look-method m.r (method_of v) pattern (wrap fn ms) s a

    -- Calls of Method one after the other, on a router that is not an inline one.
    abbrev pub method_each : Handle → List Entry → Store → Store
    method_each h [] s = s
    method_each h ((name, pattern, f) ∷ es) s = method_each h es (chi.method h name pattern f s)

    pub look-method_each :
        (h : Handle) (es : List Entry) (s : Store)
        → d.is_inline h ≡ false
        → takes_routes es ((d.look s).view (d.tree h)).routes ((d.look s).view (d.tree h)).mounts
          ≡ true
        → d.look (method_each h es s) ≡ add_routes (d.tree h) es (d.look s)
    unfolding takes_routes
    look-method_each h [] s r a = refl
    look-method_each h ((name, pattern, f) ∷ es) s r a =
        let s' = chi.method h name pattern f s in
        let e : d.look s' ≡ add_route (d.tree h) (name, pattern, f) (d.look s) =
          d.look-method h name pattern f s (and_left _ _ a) ∙ rw (d.inline-root h s r) refl in
        let v = ap (λ t. t.view (d.tree h)) e ∙ view-change (d.tree h) _ (d.look s) in
        look-method_each h es s' r (ap (λ v. takes_routes es v.routes v.mounts) v ∙ and_right _ _ a)
        ∙ ap (add_routes (d.tree h) es) e

    look-register :
        (m : Mux Handle) (g : Registration) (s : Store)
        → takes_route (method_of g.verb) g.pattern (view_of m s).routes (view_of m s).mounts ≡ true
        → d.look (register m g s)
          ≡ add_route (d.tree m.r) (entry (d.inline m.r s) g) (close (d.tree m.r) (d.look s))
    unfolding Router.with_all
    look-register m g s a =
        let m' = (Router.with_all chi m g.inline s).0 in
        let s' = (Router.with_all chi m g.inline s).1 in
        let t = d.tree-with m.r g.inline s in
        let v : view_of m' s' ≡ shut (view_of m s) =
          ap (d.look s').view t
          ∙ ap (λ x. x.view (d.tree m.r)) (d.look-with m.r g.inline s)
          ∙ view-change (d.tree m.r) _ (d.look s) in
        look-call g.verb m' g.pattern g.handler g.middleware s'
          (ap (λ v. takes_route (method_of g.verb) g.pattern v.routes v.mounts) v ∙ a)
        ∙ rw
            (
              t,
              d.inline-with m.r g.inline s,
              d.look-with m.r g.inline s,
              wrap-nest g.handler g.middleware,
            )
            refl

    inline-register :
        (m : Mux Handle) (g : Registration) (s : Store)
        → d.inline m.r (register m g s) ≡ d.inline m.r s
    unfolding Router.with_all
    inline-register m g s =
        ap (d.inline m.r) (call-method g.verb _ g.pattern g.handler g.middleware _)
        ∙ d.inline-method m.r _ _ _ _ _
        ∙ d.inline-with_kept m.r g.inline s

    -- The view after a registration that the tree takes.
    view-register :
        (m : Mux Handle) (g : Registration) (s : Store)
        → takes_route (method_of g.verb) g.pattern (view_of m s).routes (view_of m s).mounts ≡ true
        → view_of m (register m g s) ≡ add_entry (entry (d.inline m.r s) g) (view_of m s)
    view-register m g s a =
        ap (λ t. t.view (d.tree m.r)) (look-register m g s a)
        ∙ view-change (d.tree m.r) _ (close (d.tree m.r) (d.look s))
        ∙ ap (add_entry (entry (d.inline m.r s) g)) (view-change (d.tree m.r) _ (d.look s))

    panicked-register :
        (m : Mux Handle) (g : Registration) (s : Store)
        → takes_route (method_of g.verb) g.pattern (view_of m s).routes (view_of m s).mounts ≡ true
        → (d.look (register m g s)).panicked ≡ (d.look s).panicked
    unfolding change
    panicked-register m g s a = ap (λ t. t.panicked) (look-register m g s a)

    -- Over any chi that does what it documents, registrations that the router's tree takes, one after
    -- the other, add to its routes exactly one each, in their order: its method and its pattern,
    -- served by its handler inside the middlewares of the call, inside those of the inline router.
    -- No mount is added, and no call panics. A tree takes a route with the name of a method, in upper
    -- case, and a pattern that starts with a slash, has no parameter and no wildcard, and is not yet
    -- that of a route with this method or of a mount.
    pub register_each_refines :
        (m : Mux Handle) (gs : List Registration) (s : Store)
        → takes_routes (map (entry (d.inline m.r s)) gs) (view_of m s).routes (view_of m s).mounts
          ≡ true
        → let v = view_of m (register_each m gs s) in
          (v.routes ≡ (view_of m s).routes ++ map (entry (d.inline m.r s)) gs)
          × (v.mounts ≡ (view_of m s).mounts)
          × ((d.look (register_each m gs s)).panicked ≡ (d.look s).panicked)
    unfolding takes_routes
    register_each_refines m [] s a = (sym (append-nil (view_of m s).routes), refl, refl)
    register_each_refines m (g ∷ gs) s a =
        let i = inline-register m g s in
        let a1 = and_left _ _ a in
        let v = view-register m g s a1 in
        let a2 = and_right _ _ a in
        let (r, n, p) = register_each_refines m gs (register m g s) (
          ap
            (λ x.
              takes_routes (map (entry x) gs) (view_of m (register m g s)).routes
                (view_of m (register m g s)).mounts)
            i
          ∙ ap (λ v. takes_routes (map (entry (d.inline m.r s)) gs) v.routes v.mounts) v
          ∙ a2) in
        (
          r
              ∙ ap (λ x. (view_of m (register m g s)).routes ++ map (entry x) gs) i
              ∙ ap (λ v. v.routes ++ map (entry (d.inline m.r s)) gs) v
              ∙ append_assoc (view_of m s).routes (entry (d.inline m.r s) g ∷ [])
                  (map (entry (d.inline m.r s)) gs),
          n ∙ ap (λ v. v.mounts) v,
          p ∙ panicked-register m g s a1,
        )
