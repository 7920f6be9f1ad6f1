-- ===== src/Operations/Probe.antt =====
-- The readiness probe over the components that an application registers.
use mathlib.Core.List.{Permᴰ}
use mathlib.Core.Path.{subst}
use Prim.Native.String
use yuna.Prelude.{
  ℕ, String, Bool, Option, some, List, [], ◌∷◌, ◌++◌, map, ◌≡◌, ap, ◌∙◌, any, if◌then◌else◌,
}
use yuna.Http.Header.{values_of}
use yuna.Log.Logger.{Logger}
use yuna.World.{World, conn_of}
use yuna.World.Sent.{IsUnsent}
use yuna.Health.{
  ComponentRegistration, CheckResult, check, HealthResponse, respond_with, ready,
  new_healthcheck_handler,
}
use yuna.Health.Overall.{is_fatal, overall, overall-perm, any-perm, describe}
use yuna.Health.Pool.{Pool, start, Reach}
use yuna.Health.Pool.Complete.{results_of_done}
use yuna.Health.Ready.{ready_sent, ready_of_components}
use yuna.Operations.{settle_timeout}
use yuna.Operations.Registered.{register_all, components-register_all}

-- The results of the checks that were registered, each under its timeout or else one second.
abbrev pub results_of : List ComponentRegistration → List CheckResult
results_of cs = map check (map settle_timeout cs)

-- From registration to answer: after any registrations with a new server, in every schedule of the
-- checks that comes to its end, the readiness probe sends 503 exactly where some registered critical
-- component is down, and 200 otherwise, with the overall status of the registered components in
-- X-Health-Status, and its response lists each of them exactly once. It takes that the
-- response marshals and that nothing has been sent.
pub probe_of_registered :
    (marshal : HealthResponse → Option String) (now : ℕ) (logger : Logger) (enabled : Bool)
    (cs : List ComponentRegistration) (v w : World) (p : Pool) (json : String)
    → Reach (start (register_all logger enabled cs (new_healthcheck_handler, v)).0.components) p
    → p.wait ≡ 0
    → IsUnsent w.writer
    → marshal (respond_with now p.channel) ≡ some json
    → let c' = conn_of (ready marshal (respond_with now p.channel) w).writer in
      (c'.status ≡ (if any is_fatal (results_of cs) then 503 else 200))
      × (values_of "X-Health-Status" c'.sent ≡ overall (results_of cs) ∷ [])
      × Permᴰ (respond_with now p.channel).components (map describe (results_of cs))
      × (c'.body ≡ (conn_of w.writer).body ++ String.◌++◌ json "\n" ∷ [])
unfolding new_healthcheck_handler
probe_of_registered marshal now logger enabled cs v w p json r z u e =
    let known = components-register_all logger enabled cs new_healthcheck_handler v in
    let r = subst (λ xs. Reach (start xs) p) known r in
    let order = results_of_done (map settle_timeout cs) p r z in
    let (status, health, _, body) = ready_sent marshal now p.channel w json u e in
    (
      status ∙ ap (λ b. if b then 503 else 200) (any-perm is_fatal order),
      health ∙ ap (λ o. o ∷ []) (overall-perm order),
      (ready_of_components (map settle_timeout cs) p now r z).1,
      body,
    )
