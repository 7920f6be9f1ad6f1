-- ===== src/Operations/Registered.antt =====
-- Which checks the readiness probe runs.
use yuna.Prelude.{Bool, false, List, [], ◌∷◌, ◌++◌, ◌≡◌, refl, sym, ◌∙◌, arith, eqb, map, All}
use mathlib.Core.List.{append_assoc, append-nil}
use yuna.World.{World}
use yuna.Log.Logger.{Logger}
use yuna.Health.{ComponentRegistration, HealthcheckHandler, new_healthcheck_handler, register}
use yuna.Operations.{settle_timeout, register_health_check}

-- RegisterHealthCheck for one component after another.
abbrev pub register_all :
    Logger
    → Bool
    → List ComponentRegistration
    → HealthcheckHandler × World
    → HealthcheckHandler × World
register_all logger enabled [] st = st
register_all logger enabled (c ∷ cs) st =
    register_all logger enabled cs (register_health_check logger enabled c st)

pub components-register_all :
    (logger : Logger) (enabled : Bool) (cs : List ComponentRegistration) (h : HealthcheckHandler)
    (w : World)
    → (register_all logger enabled cs (h, w)).0.components ≡ h.components ++ map settle_timeout cs
unfolding register_health_check register
components-register_all logger enabled [] h w = sym (append-nil h.components)
components-register_all logger enabled (c ∷ cs) h w =
    components-register_all logger enabled cs (register (settle_timeout c) h) _
    ∙ append_assoc h.components (settle_timeout c ∷ []) (map settle_timeout cs)

settled-All :
    (cs : List ComponentRegistration) → All (λ c. eqb c.timeout 0 ≡ false) (map settle_timeout cs)
unfolding settle_timeout
settled-All [] = tt
settled-All (c ∷ cs) = (ground arith, settled-All cs)

names-settled :
    (cs : List ComponentRegistration)
    → map (λ c. c.name) (map settle_timeout cs) ≡ map (λ c. c.name) cs
unfolding settle_timeout
names-settled [] = refl
names-settled (c ∷ cs) = ground (arith, names-settled cs)

-- The components that the probe checks, after any registrations with a new server, have the names
-- that were registered, in the same order and number, and each of them has a timeout other than zero,
-- whether or not the health checks are enabled.
pub registered_with_timeout :
    (logger : Logger) (enabled : Bool) (cs : List ComponentRegistration) (w : World)
    → let components = (register_all logger enabled cs (new_healthcheck_handler, w)).0.components in
      (map (λ c. c.name) components ≡ map (λ c. c.name) cs)
      × All (λ c. eqb c.timeout 0 ≡ false) components
unfolding new_healthcheck_handler
registered_with_timeout logger enabled cs w =
    rw (components-register_all logger enabled cs new_healthcheck_handler w)
      (names-settled cs, settled-All cs)
