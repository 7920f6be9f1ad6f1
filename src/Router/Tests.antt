-- ===== src/Router/Tests.antt =====
-- A router that keeps a list of routes, and two registrations on it.
use yuna.Prelude.{false, String, List, [], ◌∷◌, ◌++◌, ◌≡◌, refl, map, some}
use yuna.World.{Middleware, emit, span_started}
use yuna.Handler.{YunaHandler, answered, responded}
use yuna.Router.{Mux}
use yuna.Router.Table.{Verb, Registration, register_each, register_each_refines, entry}
use yuna.Router.Lists.{Pointer, root, tree_chi, documented, no_routes}

abbrev finish : YunaHandler
finish r w = answered (some (λ r w. responded w false)) w

abbrev mark : String → Middleware
mark m next r w = next r (emit (span_started m) w)

abbrev registrations : List Registration
registrations =
    record {
      inline = mark "outer" ∷ [];
      verb = Verb.get;
      pattern = "/silly";
      handler = finish;
      middleware = mark "inner" ∷ [];
    }
    ∷ record {
      inline = [];
      verb = Verb.named "PUT";
      pattern = "/cache";
      handler = finish;
      middleware = [];
    }
    ∷ []

abbrev mux : Mux Pointer
mux = record { r = root 0 }

register_each_refines_example :
    let v = (register_each tree_chi mux registrations no_routes).view 0 in
    (v.routes ≡ [] ++ map (entry []) registrations)
    × (v.mounts ≡ [])
    × ((register_each tree_chi mux registrations no_routes).panicked ≡ false)
unfolding yuna.Router.Trees.takes_routes yuna.Router.Trees.takes_route yuna.Router.Trees.is_plain
    yuna.Text.has_prefix yuna.Text.before
register_each_refines_example =
    register_each_refines tree_chi documented mux registrations no_routes refl
