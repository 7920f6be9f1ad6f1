-- ===== src/Health.antt =====
-- health.go: the health of the registered components.
pub mod Overall
pub mod Pool
pub mod Ready
pub mod Routes
mod Tests
use yuna.Prelude.{
  ℕ, String, Bool, true, false, not, ◌&&◌, Option, some, List, [], ◌∷◌, ◌++◌, ◌==◌, map, lookup,
  if◌then◌else◌,
}
use yuna.Http.Header
use yuna.Http.Header.{Header}
use yuna.World.{World, map_header, write_header, write, encode}

-- A named string type: a checker may return any text.
abbrev pub HealthStatus : Type 0
HealthStatus = String

abbrev pub status_up : HealthStatus
status_up = "UP"

abbrev pub status_degraded : HealthStatus
status_degraded = "DEGRADED"

abbrev pub status_down : HealthStatus
status_down = "DOWN"

abbrev pub health_status_to_code : List (HealthStatus × ℕ)
health_status_to_code = (status_up, 200) ∷ (status_degraded, 200) ∷ (status_down, 503) ∷ []

abbrev code_or : Option ℕ → ℕ
code_or (some code) = code
code_or _ = 503

unfoldable pub status_code : HealthStatus → ℕ
unfolding lookup
status_code s = code_or (lookup s health_status_to_code)

-- `checker` is the status that Check returns under a context with this timeout.
pub record ComponentRegistration : Type 0 where
  pub name : String
  pub critical : Bool
  pub checker : ℕ → HealthStatus
  pub tags : List String
  pub timeout : ℕ

pub record Component : Type 0 where
  pub name : String
  pub status : HealthStatus
  pub tags : List String

pub record HealthResponse : Type 0 where
  pub status : HealthStatus
  pub components : List Component
  pub timestamp : ℕ

-- healthcheckHandler, less its router
pub record HealthcheckHandler : Type 0 where
  pub components : List ComponentRegistration

unfoldable pub new_healthcheck_handler : HealthcheckHandler
new_healthcheck_handler = record { components = [] }

unfoldable pub register : ComponentRegistration → HealthcheckHandler → HealthcheckHandler
register c h = record h { components = h.components ++ c ∷ [] }

-- The local type `result` of `readyStatus`.
pub record CheckResult : Type 0 where
  pub name : String
  pub critical : Bool
  pub status : HealthStatus
  pub tags : List String

-- The body of a check's goroutine, up to the send.
unfoldable pub check : ComponentRegistration → CheckResult
check comp = record {
  name = comp.name;
  critical = comp.critical;
  status = comp.checker comp.timeout;
  tags = comp.tags;
}

-- The switch on the status of a result, from the overall status so far.
unfoldable pub absorb : HealthStatus → CheckResult → HealthStatus
absorb overall res =
    if res.status == status_up
    then overall
    else if res.status == status_degraded
    then (if overall == status_down then overall else status_degraded)
    else if res.status == status_down
    then (let overall = if res.critical then status_down else overall in
        if not res.critical && not (overall == status_down) then status_degraded else overall)
    else overall

-- The loop over the closed channel.
unfoldable pub collect : List CheckResult → HealthResponse → HealthResponse
unfolding absorb
collect [] response = response
collect (res ∷ results) response = collect results (record response {
  status = absorb response.status res;
  components =
      response.components ++ record { name = res.name; status = res.status; tags = res.tags } ∷ [];
})

-- The rest of `readyStatus`, from what the channel holds when it is closed.
unfoldable pub respond_with : ℕ → List CheckResult → HealthResponse
unfolding collect
respond_with now results =
    collect results (record { status = status_up; components = []; timestamp = now })

abbrev no_cache : Header → Header
no_cache h = Header.set "Expires" "0" (
    Header.set "Pragma" "no-cache"
      (Header.set "Cache-Control" "no-cache, no-store, must-revalidate" h))

unfoldable pub live : World → World
live w =
    let f = λ (h : Header). Header.set "Content-Type" "application/json" (no_cache h) in
    let w = write_header 200 (map_header f w) in (write "{\"status\":\"UP\"}" w).0

-- `ready`, once the results are in; `marshal` is json.Marshal on a response.
unfoldable pub ready_headers : HealthStatus → Header → Header
ready_headers s h =
    Header.set "Content-Type" "application/json" (Header.set "X-Health-Status" s (no_cache h))

unfoldable pub ready : (HealthResponse → Option String) → HealthResponse → World → World
ready marshal resp w =
    let w = write_header (status_code resp.status) (map_header (ready_headers resp.status) w) in
    (encode (marshal resp) w).0
