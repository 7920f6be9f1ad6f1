-- ===== src/Health/Routes.antt =====
-- health.go: newHealthcheckHandler, which routes the two probes over chi. What the checks of a
-- request come to is a parameter.
use yuna.Prelude.{String, Option, List, [], ◌∷◌, ◌++◌, ◌≡◌, ap, ◌∙◌}
use yuna.Text.{has_prefix, before}
use yuna.World.{Handler, Request, returned}
use yuna.Health.{HealthResponse, live, ready}
use yuna.Router.{Chi}
use yuna.Router.Table.{Documented, method_each, look-method_each}
use yuna.Router.Trees.{Entry, takes_routes, empty_view, view-fresh, routes-add_routes}

abbrev pub get_live : Handler
get_live r w = returned (live w)

abbrev pub get_ready : (HealthResponse → Option String) → (Request → HealthResponse) → Handler
get_ready marshal checked r w = returned (ready marshal (checked r) w)

module _ {Store Handle : Type 0} (chi : Chi Store Handle) where
  abbrev route_probes :
      (HealthResponse → Option String)
      → (Request → HealthResponse)
      → Handle × Store
      → Handle × Store
  route_probes marshal checked (router, s) = (
    router,
    chi.get router "/ready" (get_ready marshal checked) (chi.get router "/live" get_live s),
  )

  unfoldable pub new_router :
      (HealthResponse → Option String) → (Request → HealthResponse) → Store → Handle × Store
  unfolding live ready
  new_router marshal checked s = route_probes marshal checked (chi.new_router s)

  -- The health handler is a router with exactly the two probes, /live and /ready, and only for GET.
  routes-new_router :
      (d : Documented chi) (marshal : HealthResponse → Option String)
      (checked : Request → HealthResponse) (s : Store)
      → let (h, s') = new_router marshal checked s in
        ((d.look s').view (d.tree h)).routes
        ≡ ("GET", "/live", get_live) ∷ ("GET", "/ready", get_ready marshal checked) ∷ []
  unfolding new_router takes_routes has_prefix before
  routes-new_router d marshal checked s =
      let m = (chi.new_router s).0 in
      let s0 = (chi.new_router s).1 in
      let probes : List Entry =
        ("GET", "/live", get_live) ∷ ("GET", "/ready", get_ready marshal checked) ∷ [] in
      let v : (d.look s0).view (d.tree m) ≡ empty_view =
        rw (d.tree-new s, d.look-new s) (view-fresh (d.look s)) in
      let called : (new_router marshal checked s).1 ≡ method_each chi d m probes s0 =
        d.get-method m "/ready" (get_ready marshal checked) _
        ∙ ap (chi.method m "GET" "/ready" (get_ready marshal checked))
            (d.get-method m "/live" get_live s0) in
      ap (λ t. (t.view (d.tree m)).routes)
        (ap d.look called
          ∙ look-method_each chi d m probes s0 (d.is_inline-new s)
              (ap (λ v. takes_routes probes v.routes v.mounts) v))
      ∙ routes-add_routes (d.tree m) probes (d.look s0)
      ∙ ap (λ v. v.routes ++ probes) v
