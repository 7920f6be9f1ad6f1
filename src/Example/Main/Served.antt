-- ===== src/Example/Main/Served.antt =====
-- The routes of the example application.
use yuna.Prelude.{
  ℕ, suc, eqb, arith, true, false, String, Bool, none, Option, List, [], ◌∷◌, ◌++◌, map, ◌≡◌, refl,
  sym, ap, ◌∙◌, ◌⊎◌,
}
use yuna.Log.Level.{level_info}
use yuna.Log.Logger.{LogState, Record, get_logger}
use yuna.World.{Any, Request, World, Middleware}
use yuna.Handler.{YunaHandler, adapt}
use yuna.Handler.Nesting.{nest, wrap-nest}
use yuna.Auth.{authenticated}
use yuna.Mime.{consumes}
use yuna.Health.{ComponentRegistration}
use yuna.Router.{Chi, Mux}
use yuna.Router.Table.{
  Verb, Documented, call, method_of, call-method, method_each, look-method_each,
}
use yuna.Text.{has_prefix, has_suffix, before}
use yuna.Router.Trees.{
  Entry, serves, routed, View, Trees, change, fresh, add_routes, add_mount, add_entry, put_mount,
  empty_view, is_plain, slashed, takes_route, takes_mount, takes_routes, takes_mounts, view-change,
  view-change_other, view-fresh, view-fresh_other, routes-add_routes, view-add_routes_other,
}
use yuna.Operations.{register_health_check, settle_timeout}
use yuna.Operations.Served.{routes_of}
use yuna.Operations.Endpoints.{Sources}
use yuna.App.{Packages, new_yuna}
use yuna.App.Built
use yuna.App.Built.{new_serves, look-new, with_servers, other_tree, made-with_servers}
use yuna.App.Routes
use yuna.Example.{
  hello, create_event, list_events, list_events_manual, silly_handler, get_order, responder_func,
  silly_middleware, silly_middleware2, api, routes, Globals, init_open_telemetry,
}
use yuna.Example.Main.{options, silly_check, Application, starts, set_up, main}

-- A call of a routing method on a router.
abbrev Call : Type 0
Call = Verb × String × YunaHandler × List Middleware

module _ {Store Handle : Type 0} (chi : Chi Store Handle) (d : Documented chi) where
  abbrev call_each : Mux Handle → List Call → Store → Store
  call_each m [] s = s
  call_each m ((v, pattern, fn, ms) ∷ cs) s = call_each m cs (call chi v m pattern fn ms s)

  abbrev pub served : Call → Entry
  served (v, pattern, fn, ms) = (method_of v, pattern, nest ms (adapt fn))

  call_each-method :
      (m : Mux Handle) (cs : List Call) (s : Store)
      → call_each m cs s ≡ method_each chi d m.r (map served cs) s
  call_each-method m [] s = refl
  call_each-method m ((v, pattern, fn, ms) ∷ cs) s =
      call_each-method m cs (call chi v m pattern fn ms s)
      ∙ ap (method_each chi d m.r (map served cs)) (
          call-method chi d v m pattern fn ms s
          ∙ ap (λ h. chi.method m.r (method_of v) pattern h s) (wrap-nest fn ms))

  -- Calls on a router that is not an inline one, and that has no route and no mount.
  look-call_each :
      (m : Mux Handle) (cs : List Call) (s : Store)
      → d.is_inline m.r ≡ false
      → (d.look s).view (d.tree m.r) ≡ empty_view
      → takes_routes (map served cs) [] [] ≡ true
      → d.look (call_each m cs s) ≡ add_routes (d.tree m.r) (map served cs) (d.look s)
  look-call_each m cs s r v a =
      ap d.look (call_each-method m cs s)
      ∙ look-method_each chi d m.r (map served cs) s r
          (ap (λ v. takes_routes (map served cs) v.routes v.mounts) v ∙ a)

  module _ (p : Packages) (sources : Sources) (uuid : Request → String)
      (string_map : List (String × String) → Any) (parse : String → Option String)
      (decode : Request → World → Bool) (bind : Request → String ⊎ String)
      (params : Request → String) (event_uuid : Request → World → String) where
    abbrev hello_call : Call
    hello_call = (Verb.get, "/hello", hello p.marshal string_map p.start parse, [])

    abbrev api_calls : List Call
    api_calls =
        (
          Verb.post,
          "/event",
          create_event p.marshal string_map p.start parse decode event_uuid,
          consumes p.marshal parse ("application/json" ∷ []) ∷ [],
        )
        ∷ (Verb.get, "/event", list_events p.marshal string_map p.start parse bind, [])
        ∷ (
          Verb.get,
          "/event-manual",
          list_events_manual p.marshal string_map p.start parse params,
          [],
        )
        ∷ (
          Verb.get,
          "/silly",
          silly_handler p.marshal string_map p.start parse,
          authenticated p.marshal p.start ∷ silly_middleware ∷ silly_middleware2 ∷ [],
        )
        ∷ (
          Verb.get,
          "/order",
          get_order p.marshal string_map p.start parse,
          silly_middleware ∷ silly_middleware2 ∷ [],
        )
        ∷ (Verb.get, "/responderfunc", responder_func p.marshal string_map p.start parse, [])
        ∷ []

    -- The application's own routes, and those that are mounted at /api.
    abbrev pub own_routes : List Entry
    own_routes = served hello_call ∷ []

    abbrev pub api_routes : List Entry
    api_routes = map served api_calls

    abbrev main_view : ℕ → View
    main_view i = record { routes = own_routes; mounts = ("/api", routed i) ∷ []; is_open = false }

    -- The trees after the application's routes, on a router that has none.
    abbrev with_routes : ℕ → Trees → Trees
    with_routes n t =
        add_mount n ("/api", routed t.made)
          (add_routes t.made api_routes (fresh (add_routes n own_routes t)))

    -- The router's tree before the mount.
    own_view :
        (n : ℕ) (t : Trees)
        → t.view n ≡ empty_view
        → eqb n t.made ≡ false
        → (add_routes t.made api_routes (fresh (add_routes n own_routes t))).view n
          ≡ add_entry (served hello_call) empty_view
    unfolding change
    own_view n t v e =
        view-add_routes_other t.made n api_routes (fresh (add_routes n own_routes t)) e
        ∙ view-fresh_other (add_routes n own_routes t) n e
        ∙ view-change n (add_entry (served hello_call)) t
        ∙ ap (add_entry (served hello_call)) v

    view-with_routes :
        (n : ℕ) (t : Trees)
        → t.view n ≡ empty_view
        → eqb n t.made ≡ false
        → (with_routes n t).view n ≡ main_view t.made
    view-with_routes n t v e =
        view-change n (put_mount ("/api", routed t.made))
          (add_routes t.made api_routes (fresh (add_routes n own_routes t)))
        ∙ ap (put_mount ("/api", routed t.made)) (own_view n t v e)

    api-with_routes :
        (n : ℕ) (t : Trees)
        → eqb t.made n ≡ false
        → ((with_routes n t).view t.made).routes ≡ api_routes
    unfolding change
    api-with_routes n t e =
        ap (λ v. v.routes)
          (view-change_other n t.made (put_mount ("/api", routed t.made))
            (add_routes t.made api_routes (fresh (add_routes n own_routes t))) e)
        ∙ routes-add_routes t.made api_routes (fresh (add_routes n own_routes t))
        ∙ ap (λ v. v.routes ++ api_routes) (view-fresh (add_routes n own_routes t))

    other-with_routes :
        (n k : ℕ) (t : Trees)
        → eqb k n ≡ false
        → eqb k t.made ≡ false
        → (with_routes n t).view k ≡ t.view k
    unfolding change
    other-with_routes n k t e e' =
        view-change_other n k (put_mount ("/api", routed t.made))
          (add_routes t.made api_routes (fresh (add_routes n own_routes t))) e
        ∙ view-add_routes_other t.made k api_routes (fresh (add_routes n own_routes t)) e'
        ∙ view-fresh_other (add_routes n own_routes t) k e'
        ∙ view-change_other n k (add_entry (served hello_call)) t e

    look-routes :
        (h : Handle) (s : Store)
        → d.is_inline h ≡ false
        → (d.look s).view (d.tree h) ≡ empty_view
        → eqb (d.tree h) (d.look s).made ≡ false
        → d.look (routes p.marshal string_map p.start parse chi decode bind params event_uuid h s)
          ≡ with_routes (d.tree h) (d.look s)
    unfolding routes api Routes.get Routes.route yuna.Router.get yuna.Router.post change
        takes_routes takes_mount is_plain slashed has_prefix has_suffix before
    look-routes h s r v e =
        let n = d.tree h in
        let t = d.look s in
        let s' = Routes.get chi h "/hello" (hello p.marshal string_map p.start parse) [] s in
        let f = api p.marshal string_map p.start parse chi decode bind params event_uuid in
        let k = (chi.new_router s').0 in
        let s1 = (chi.new_router s').1 in
        let e1 : d.look s' ≡ add_routes n own_routes t =
          look-call_each (record { r = h }) (hello_call ∷ []) s r v refl in
        let i : d.tree k ≡ t.made = d.tree-new s' ∙ ap (λ t. t.made) e1 in
        let v1 : (d.look s1).view (d.tree k) ≡ empty_view =
          rw (d.tree-new s', d.look-new s') (view-fresh (d.look s')) in
        let e2 : d.look (f (record { r = k }) s1)
            ≡ add_routes t.made api_routes (fresh (add_routes n own_routes t)) =
          look-call_each (record { r = k }) api_calls s1 (d.is_inline-new s') v1 refl
          ∙ rw (i, d.look-new s', e1) refl in
        let v2 = ap (λ t. t.view n) e2 ∙ own_view n t v e in
        d.look-route h "/api" (λ h. f (record { r = h })) s'
          (ap (λ v. takes_mount "/api" v.routes v.mounts) v2)
        ∙ rw (i, e2) refl

    -- Where the exporters can be made, main starts the servers of an application whose main server
    -- serves a router with the route GET /hello and one mount, at /api, of a router with the six
    -- routes of the source, each handler in its middlewares; whose operations server serves a router
    -- with its three routes and the mounts /metrics, /debug/pprof/ and /healthz; and whose one health
    -- check is the one that it registers, without a warning. No call of chi panics. chi does what it
    -- documents.
    pub main_serves :
        (g : Globals) (logs : LogState) (s : Store) (w : World) (rs : List Record)
        → (a : Application Store Handle) × (main chi p sources uuid string_map parse decode bind
              params event_uuid none none g logs s w rs
            ≡ (starts a, rs ++ (get_logger logs, level_info, "Initializing application") ∷ []))
          × (let main_tree = (d.look a.store).view (d.tree a.built.router) in
              let ops_tree = (d.look a.store).view (d.tree a.built.op_server.handler) in
              (main_tree.routes ≡ own_routes)
              × ((i : ℕ) × (main_tree.mounts ≡ ("/api", routed i) ∷ [])
                  × (((d.look a.store).view i).routes ≡ api_routes))
              × (ops_tree.routes ≡ routes_of sources a.built.yuna.logger)
              × (ops_tree.mounts
                  ≡ ("/metrics", serves sources.metrics)
                    ∷ ("/debug/pprof/", serves sources.default_mux)
                    ∷ ("/healthz", serves sources.health)
                    ∷ []))
          × ((d.look a.store).panicked ≡ (d.look s).panicked)
          × (a.health_handler.components ≡ silly_check ∷ [])
          × (a.world ≡ w)
    unfolding main set_up init_open_telemetry Built.new new_yuna register_health_check
        settle_timeout yuna.Options.new_config yuna.Health.register
        yuna.Health.new_healthcheck_handler takes_routes takes_mounts takes_route takes_mount
        is_plain slashed has_prefix has_suffix before change fresh
    main_serves g logs s w rs =
        let a = set_up chi p sources uuid string_map parse decode bind params event_uuid logs s w in
        let s' = (Built.new chi p sources uuid logs options s).1 in
        let n = (d.look s).made in
        let z = new_yuna p logs options in
        let t = with_servers chi d sources z (d.look s) in
        let (e, r, o) = look-new chi d p sources uuid logs options s refl in
        let (or, om, v, q) = new_serves chi d p sources uuid logs options s refl in
        let m = made-with_servers chi d sources z (d.look s) in
        let l : d.look a.store ≡ with_routes n t =
          look-routes a.built.router s' (d.is_inline-new s) v (rw (e, r) (ground (arith, m)))
          ∙ (λ i. with_routes (r i) (e i)) in
        let ops = d.tree a.built.op_server.handler in
        let other : (d.look a.store).view ops ≡ (d.look s').view ops =
          rw (l, o)
            (other-with_routes n (suc n) t (ground arith) (ground (arith, m))
              ∙ sym (ap (λ t. t.view (suc n)) e)) in
        let own : (d.look a.store).view (d.tree a.built.router) ≡ main_view t.made =
          rw (l, r)
            (view-with_routes n t (other_tree chi d sources z (d.look s)) (ground (arith, m))) in
        (
          a,
          refl,
          (
            ap (λ v. v.routes) own,
            (t.made, ap (λ v. v.mounts) own, rw l (api-with_routes n t (ground (arith, m)))),
            ap (λ v. v.routes) other ∙ or,
            ap (λ v. v.mounts) other ∙ om,
          ),
          ap (λ t. t.panicked) l ∙ ap (λ t. t.panicked) (sym e) ∙ q,
          refl,
          refl,
        )
