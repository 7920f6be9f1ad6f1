-- ===== src/App/Built.antt =====
-- yuna.go: New as a whole, over chi.
use yuna.Prelude.{suc, String, true, false, List, [], ◌∷◌, ◌++◌, ◌≡◌, refl, ap, ◌∙◌, arith}
use yuna.Router.Trees.{
  Trees, fresh, add_routes, add_mounts, empty_view, view-fresh, view-fresh_other, routes-add_routes,
  mounts-add_routes, view-add_routes_other, made-add_routes, routes-add_mounts, mounts-add_mounts,
  view-add_mounts_other, made-add_mounts,
}
use yuna.Log.Logger.{LogState}
use yuna.World.{Middleware, Request}
use yuna.Recover.{recovery}
use yuna.Options.{Config, BaseOption}
use yuna.Router.{Chi}
use yuna.Router.Table.{Documented}
use yuna.Operations.Served.{routes_of, mounts_of, has_paths, look-init_ops_server}
use yuna.Operations.Endpoints.{Sources, HttpServer, init_ops_server}
use yuna.App.{
  Yuna, Packages, new_yuna, trace_middleware, metrics_middleware, log_middleware, auth_middleware,
}
use yuna.App.Servers.{MainServer, main_server}

-- The struct Yuna with its router and its servers.
pub record Built (Handle : Type 0) : Type 0 where
  pub yuna : Yuna
  pub router : Handle
  pub server : MainServer
  pub op_server : HttpServer Handle

module _ {Store Handle : Type 0} (chi : Chi Store Handle) where
  -- Calls of Use with one middleware each.
  abbrev pub use_each : Handle → List Middleware → Store → Store
  use_each h [] s = s
  use_each h (m ∷ ms) s = use_each h ms (chi.use_all h (m ∷ []) s)

  -- `uuid` is the id that Trace makes for a request.
  module _ (p : Packages) (sources : Sources) (uuid : Request → String) where
    abbrev pub installed : Yuna → List Middleware
    installed z =
        recovery p.marshal
        ∷ (λ next r w. trace_middleware p z (uuid r) next r w)
        ∷ metrics_middleware p
        ∷ log_middleware p z
        ∷ auth_middleware p z.config.authenticator

    abbrev set_handlers : Config → Handle → Store → Store
    set_handlers conf router s =
        chi.method_not_allowed router conf.method_not_allowed_handler
          (chi.not_found router conf.not_found_handler s)

    abbrev build_with : Yuna → Handle → HttpServer Handle × Store → Built Handle × Store
    build_with z router (op_server, s) = (
      record {
        yuna = z;
        router = router;
        server = main_server sources.show z.config;
        op_server = op_server;
      },
      set_handlers z.config router (use_each router (installed z) s),
    )

    abbrev build_on : Yuna → Handle × Store → Built Handle × Store
    build_on z (router, s) = build_with z router (init_ops_server chi sources z.logger z.config s)

    unfoldable pub new : LogState → List BaseOption → Store → Built Handle × Store
    unfolding new_yuna main_server init_ops_server recovery
    new logs opts s = build_on (new_yuna p logs opts) (chi.new_router s)

  module _ (d : Documented chi) where
    -- A router that still takes middlewares.
    look-use_each :
        (h : Handle) (ms : List Middleware) (s : Store)
        → d.is_inline h ≡ false
        → ((d.look s).view (d.tree h)).is_open ≡ true
        → d.look (use_each h ms s) ≡ d.look s
    look-use_each h [] s r o = refl
    look-use_each h (m ∷ ms) s r o =
        let e = d.look-use_all h (m ∷ []) s r o in
        look-use_each h ms (chi.use_all h (m ∷ []) s) r
          (ap (λ t. (t.view (d.tree h)).is_open) e ∙ o)
        ∙ e

    -- The trees after New: a new one for the main router, and one for the operations server.
    abbrev pub with_servers : Sources → Yuna → Trees → Trees
    with_servers sources z t =
        let n = suc t.made in
        add_routes n (routes_of sources z.logger)
          (add_mounts n (mounts_of sources z.config) (fresh (fresh t)))

    pub other_tree :
        (sources : Sources) (z : Yuna) (t : Trees)
        → (with_servers sources z t).view t.made ≡ empty_view
    unfolding fresh
    other_tree sources z t =
        view-add_routes_other (suc t.made) t.made (routes_of sources z.logger) _ (ground arith)
        ∙ view-add_mounts_other (suc t.made) t.made (mounts_of sources z.config) _ (ground arith)
        ∙ view-fresh_other (fresh t) t.made (ground arith)
        ∙ view-fresh t

    pub made-with_servers :
        (sources : Sources) (z : Yuna) (t : Trees)
        → (with_servers sources z t).made ≡ suc (suc t.made)
    unfolding fresh
    made-with_servers sources z t =
        (made-add_routes (suc t.made) (routes_of sources z.logger) _).0
        ∙ (made-add_mounts (suc t.made) (mounts_of sources z.config) (fresh (fresh t))).0

    pub look-new :
        (p : Packages) (sources : Sources) (uuid : Request → String) (logs : LogState)
        (opts : List BaseOption) (s : Store)
        → let z = new_yuna p logs opts in
          has_paths sources z.logger z.config ≡ true
          → let b = (new p sources uuid logs opts s).0 in
            (d.look (new p sources uuid logs opts s).1 ≡ with_servers sources z (d.look s))
            × (d.tree b.router ≡ (d.look s).made)
            × (d.tree b.op_server.handler ≡ suc (d.look s).made)
    unfolding new fresh
    look-new p sources uuid logs opts s a =
        let z = new_yuna p logs opts in
        let h = (chi.new_router s).0 in
        let s1 = (chi.new_router s).1 in
        let s2 = (init_ops_server chi sources z.logger z.config s1).1 in
        let s3 = use_each h (installed p sources uuid z) s2 in
        let made : (d.look s1).made ≡ suc (d.look s).made = ap (λ t. t.made) (d.look-new s) in
        let (t, e) = look-init_ops_server chi d sources z.logger z.config s1 a in
        let e : d.look s2 ≡ with_servers sources z (d.look s) = e ∙ rw (d.look-new s) refl in
        let o : ((d.look s2).view (d.tree h)).is_open ≡ true =
          rw (e, d.tree-new s) (ap (λ v. v.is_open) (other_tree sources z (d.look s))) in
        (
          d.look-method_not_allowed h z.config.method_not_allowed_handler _
              ∙ d.look-not_found h z.config.not_found_handler s3
              ∙ look-use_each h (installed p sources uuid z) s2 (d.is_inline-new s) o
              ∙ e,
          d.tree-new s,
          t ∙ made,
        )

    -- Over any chi that does what it documents, New makes an application whose operations server
    -- serves a router with exactly three routes, GET /info, GET /uptime and PUT /log/level, which sets
    -- the level of the configured logger, and exactly the mounts that the options enable, each at its
    -- path; its main router has no route and no mount, and no call of chi panics. It takes that the
    -- base path of the health checks, where they are enabled, starts with a slash, has no parameter
    -- and no wildcard, and is none of the other paths, at which chi panics or replaces a route.
    pub new_serves :
        (p : Packages) (sources : Sources) (uuid : Request → String) (logs : LogState)
        (opts : List BaseOption) (s : Store)
        → has_paths sources (new_yuna p logs opts).logger (new_yuna p logs opts).config ≡ true
        → let (b, s') = new p sources uuid logs opts s in
          let z = new_yuna p logs opts in
          let served = (d.look s').view (d.tree b.op_server.handler) in
          (served.routes ≡ routes_of sources z.logger)
          × (served.mounts ≡ mounts_of sources z.config)
          × ((d.look s').view (d.tree b.router) ≡ empty_view)
          × ((d.look s').panicked ≡ (d.look s).panicked)
    unfolding fresh
    new_serves p sources uuid logs opts s a =
        let z = new_yuna p logs opts in
        let t = d.look s in
        let n = suc t.made in
        let (e, r, o) = look-new p sources uuid logs opts s a in
        let ms = add_mounts n (mounts_of sources z.config) (fresh (fresh t)) in
        (
          rw (e, o)
              (routes-add_routes n (routes_of sources z.logger) ms
                ∙ ap (λ rs. rs ++ routes_of sources z.logger)
                    (routes-add_mounts n (mounts_of sources z.config) (fresh (fresh t))
                      ∙ ap (λ v. v.routes) (view-fresh (fresh t)))),
          rw (e, o)
              (mounts-add_routes n (routes_of sources z.logger) ms
                ∙ mounts-add_mounts n (mounts_of sources z.config) (fresh (fresh t))
                ∙ ap (λ v. v.mounts ++ mounts_of sources z.config) (view-fresh (fresh t))),
          rw (e, r) (other_tree sources z t),
          rw e (
              (made-add_routes n (routes_of sources z.logger) ms).1
              ∙ (made-add_mounts n (mounts_of sources z.config) (fresh (fresh t))).1),
        )
