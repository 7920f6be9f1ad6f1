-- ===== src/Health/Ready.antt =====
-- The readiness endpoint.
use mathlib.Core.List.{Permᴰ}
use mathlib.Core.List.Permᴰ
use Prim.Native.String
use yuna.Prelude.{
  ℕ, String, Bool, true, false, Option, some, List, [], ◌∷◌, ◌++◌, map, ◌≡◌, refl, ap, ◌∙◌, arith,
  any, if◌then◌else◌,
}
use yuna.Http.Conn.{is_informational, body_allowed}
use yuna.Http.Header.{Header, canonical, values_of}
use yuna.Http.Header.Laws.{values_of-set_same, values_of-set_ne}
use yuna.World.{World, conn_of}
use yuna.World.Sent.{IsUnsent, send-encode}
use yuna.Health.{
  ComponentRegistration, CheckResult, check, HealthResponse, respond_with, ready, ready_headers,
  status_code, status_up, status_degraded, status_down,
}
use yuna.Health.Overall.{
  is_fatal, is_impaired, overall, describe, overall-perm, respond_with-overall,
}
use yuna.Health.Pool.{Pool, start, Reach}
use yuna.Health.Pool.Complete.{results_of_done}

-- Whatever the order in which the checks finish, the readiness of the registered components is
-- DOWN if some critical one is down, else DEGRADED if some is degraded or down, else UP; and the
-- response lists every component exactly once.
pub ready_of_components :
    (cs : List ComponentRegistration) (p : Pool) (now : ℕ)
    → Reach (start cs) p
    → p.wait ≡ 0
    → ((respond_with now p.channel).status ≡ overall (map check cs))
      × Permᴰ (respond_with now p.channel).components (map describe (map check cs))
ready_of_components cs p now r z =
    let order = results_of_done cs p r z in
    let (status, components, _) = respond_with-overall now p.channel in
    (status ∙ overall-perm order, rw components (Permᴰ.map describe order))

status_code_final :
    (s : String)
    → (is_informational (status_code s) ≡ false) × (body_allowed (status_code s) ≡ true)
unfolding status_code is_informational body_allowed
status_code_final s = ground arith

by_tests :
    (fatal impaired : Bool)
    → status_code (if fatal then status_down else if impaired then status_degraded else status_up)
      ≡ (if fatal then 503 else 200)
unfolding status_code
by_tests true impaired = refl
by_tests false true = refl
by_tests false false = refl

status_code_overall :
    (rs : List CheckResult) → status_code (overall rs) ≡ (if any is_fatal rs then 503 else 200)
status_code_overall rs = by_tests (any is_fatal rs) (any is_impaired rs)

ready_headers_sent :
    (s : String) (h : Header)
    → (values_of "X-Health-Status" (ready_headers s h) ≡ s ∷ [])
      × (values_of "Content-Type" (ready_headers s h) ≡ "application/json" ∷ [])
unfolding ready_headers canonical
ready_headers_sent s h = (
  values_of-set_ne "Content-Type" "X-Health-Status" _ _ refl
      ∙ values_of-set_same "X-Health-Status" s _,
  values_of-set_same "Content-Type" _ _,
)

-- The answer to the readiness probe: on a connection that has sent nothing, where the response
-- marshals, the client is sent 503 if some critical component is down and 200 otherwise, the overall
-- status in X-Health-Status, and the marshalled response and a newline.
pub ready_sent :
    (marshal : HealthResponse → Option String) (now : ℕ) (rs : List CheckResult) (w : World)
    (json : String)
    → IsUnsent w.writer
    → marshal (respond_with now rs) ≡ some json
    → let c' = conn_of (ready marshal (respond_with now rs) w).writer in
      (c'.status ≡ (if any is_fatal rs then 503 else 200))
      × (values_of "X-Health-Status" c'.sent ≡ overall rs ∷ [])
      × (values_of "Content-Type" c'.sent ≡ "application/json" ∷ [])
      × (c'.body ≡ (conn_of w.writer).body ++ String.◌++◌ json "\n" ∷ [])
unfolding ready
ready_sent marshal now rs w json u e =
    let resp = respond_with now rs in
    let (final, with_body) = status_code_final resp.status in
    let (s, ok) =
      send-encode (ready_headers resp.status) (status_code resp.status) json w u final with_body in
    let known = (respond_with-overall now rs).0 in
    let sent = ready_headers_sent resp.status (conn_of w.writer).header in
    rw (e, conn_of)
      (
        s.status ∙ ap status_code known ∙ status_code_overall rs,
        ap (values_of "X-Health-Status") s.sent ∙ sent.0 ∙ ap (λ o. o ∷ []) known,
        ap (values_of "Content-Type") s.sent ∙ sent.1,
        s.body,
      )
