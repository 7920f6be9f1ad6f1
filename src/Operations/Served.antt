-- ===== src/Operations/Served.antt =====
-- What the operations server serves.
use yuna.Prelude.{String, Bool, true, false, List, [], ◌∷◌, ◌++◌, ◌≡◌, refl, ap, ◌∙◌, ◌&&◌}
use yuna.Log.Logger.{Logger}
use yuna.World.{Handler}
use yuna.Options.{Config}
use yuna.Router.{Chi}
use yuna.Router.Trees.{
  Entry, Mount, serves, fresh, add_mounts, add_routes, takes_mounts, takes_routes, empty_view,
  view-change, view-fresh, routes-add_mounts, mounts-add_mounts, and_left, and_right,
}
use yuna.Router.Table.{Documented, method_each, look-method_each}
use yuna.Operations.Endpoints.{
  Sources, get_info, get_uptime, put_level, mount_if, mount_all, route_all, init_ops_server,
}

-- The mounts that are enabled.
abbrev pub enabled : List (Bool × String × Handler) → List Mount
enabled [] = []
enabled ((true, path, h) ∷ xs) = (path, serves h) ∷ enabled xs
enabled ((false, path, h) ∷ xs) = enabled xs

abbrev optional : Sources → Config → List (Bool × String × Handler)
optional z conf =
    (conf.metrics_enabled, "/metrics", z.metrics)
    ∷ (conf.pprof_enabled, "/debug/pprof/", z.default_mux)
    ∷ (conf.healthcheck_enabled, conf.healthcheck_base_path, z.health)
    ∷ []

-- The mounts and the routes of an operations server.
abbrev pub mounts_of : Sources → Config → List Mount
mounts_of z conf = enabled (optional z conf)

abbrev pub routes_of : Sources → Logger → List Entry
routes_of z logger =
    ("GET", "/info", get_info z)
    ∷ ("GET", "/uptime", get_uptime z)
    ∷ ("PUT", "/log/level", put_level z logger)
    ∷ []

-- The paths of the mounts are plain and differ from one another and from those of the routes, which is
-- for the base path of the health checks to do.
abbrev pub has_paths : Sources → Logger → Config → Bool
has_paths z logger conf =
    takes_mounts (mounts_of z conf) [] [] && takes_routes (routes_of z logger) [] (mounts_of z conf)

module _ {Store Handle : Type 0} (chi : Chi Store Handle) (d : Documented chi) where
  abbrev mount_each : Handle → List (Bool × String × Handler) → Store → Store
  mount_each m [] s = s
  mount_each m ((b, path, h) ∷ xs) s = mount_each m xs (mount_if chi b m path h s)

  look-mount_each :
      (m : Handle) (xs : List (Bool × String × Handler)) (s : Store)
      → takes_mounts
          (enabled xs)
          ((d.look s).view (d.tree m)).routes
          ((d.look s).view (d.tree m)).mounts
        ≡ true
      → d.look (mount_each m xs s) ≡ add_mounts (d.tree m) (enabled xs) (d.look s)
  unfolding takes_mounts
  look-mount_each m [] s a = refl
  look-mount_each m ((false, path, h) ∷ xs) s a = look-mount_each m xs s a
  look-mount_each m ((true, path, h) ∷ xs) s a =
      let s' = chi.mount m path h s in
      let e = d.look-mount m path h s (and_left _ _ a) in
      let v = ap (λ t. t.view (d.tree m)) e ∙ view-change (d.tree m) _ (d.look s) in
      look-mount_each m xs s'
        (ap (λ v. takes_mounts (enabled xs) v.routes v.mounts) v ∙ and_right _ _ a)
      ∙ ap (add_mounts (d.tree m) (enabled xs)) e

  route_all-method :
      (z : Sources) (logger : Logger) (m : Handle) (s : Store)
      → route_all chi z logger m s ≡ method_each chi d m (routes_of z logger) s
  route_all-method z logger m s =
      d.put-method m "/log/level" (put_level z logger) _
      ∙ ap (chi.method m "PUT" "/log/level" (put_level z logger)) (
          d.get-method m "/uptime" (get_uptime z) _
          ∙ ap (chi.method m "GET" "/uptime" (get_uptime z))
              (d.get-method m "/info" (get_info z) s))

  -- Building the operations server makes a router with these mounts and routes, and no more.
  pub look-init_ops_server :
      (z : Sources) (logger : Logger) (conf : Config) (s : Store)
      → has_paths z logger conf ≡ true
      → let n = (d.look s).made in
        (d.tree (init_ops_server chi z logger conf s).0.handler ≡ n)
        × (d.look (init_ops_server chi z logger conf s).1
            ≡ add_routes n
                (routes_of z logger)
                (add_mounts n (mounts_of z conf) (fresh (d.look s))))
  unfolding init_ops_server
  look-init_ops_server z logger conf s a =
      let n = (d.look s).made in
      let m = (chi.new_router s).0 in
      let s0 = (chi.new_router s).1 in
      let s1 = mount_all chi z conf m s0 in
      let t = d.tree-new s in
      let v0 : (d.look s0).view (d.tree m) ≡ empty_view =
        rw (t, d.look-new s) (view-fresh (d.look s)) in
      let e1 =
        look-mount_each m (optional z conf) s0
          (ap (λ v. takes_mounts (mounts_of z conf) v.routes v.mounts) v0 ∙ and_left _ _ a) in
      let rs =
        ap (λ t. (t.view (d.tree m)).routes) e1
        ∙ routes-add_mounts (d.tree m) (mounts_of z conf) (d.look s0)
        ∙ ap (λ v. v.routes) v0 in
      let ms =
        ap (λ t. (t.view (d.tree m)).mounts) e1
        ∙ mounts-add_mounts (d.tree m) (mounts_of z conf) (d.look s0)
        ∙ ap (λ v. v.mounts ++ mounts_of z conf) v0 in
      let e2 =
        look-method_each chi d m (routes_of z logger) s1 (d.is_inline-new s)
          (rw (rs, ms) (and_right _ _ a)) in
      (t, ap d.look (route_all-method z logger m s1) ∙ e2 ∙ rw (e1, t, d.look-new s) refl)
