-- ===== src/Health/Tests.antt =====
-- Health checks on one component.
use mathlib.Core.List.{Permᴰ}
use yuna.Prelude.{
  ◌*◌, ◌≤◌, List, [], ◌∷◌, ◌++◌, ◌≡◌, refl, arith, length, map, ◌⊎◌, String, true, Option, some,
  any, if◌then◌else◌, Bool, ◌==◌, ◌≢◌,
}
use yuna.Health.{
  ComponentRegistration, CheckResult, check, HealthResponse, respond_with, ready, status_down,
}
use yuna.Health.Pool.{Pool, start, Step, send, done, Reach, here, next}
use Prim.Native.String
use yuna.Http.Header.{values_of}
use yuna.World.{conn_of}
use yuna.Health.Overall.{is_fatal, overall, describe}
use yuna.Health.Pool.Complete.{checks_complete, steps}
use yuna.Health.Pool.Hung
use yuna.Health.Pool.Hung.{Schedule, ready_blocks}
use yuna.Sample.{world}
use yuna.Health.Ready.{ready_of_components, ready_sent}

abbrev database : ComponentRegistration
database = record {
  name = "database";
  critical = true;
  checker = λ timeout. status_down;
  tags = [];
  timeout = 1000;
}

abbrev components : List ComponentRegistration
components = database ∷ []

-- The one check runs and is counted as done.
abbrev finished : Pool
finished = record { checking = []; sent = 0; wait = 0; channel = check database ∷ []; capacity = 1 }

schedule : Reach (start components) finished
unfolding start
schedule = next (next here (send [] [] database refl (ground arith) refl)) (done 0 0 refl refl refl)

abbrev results : List CheckResult
results = check database ∷ []

checks_complete_example :
    (steps schedule ≤ 2 * length components)
    × (((finished.wait ≡ 0) × Permᴰ finished.channel (map check components))
        ⊎ ((q : Pool) × Step finished q))
checks_complete_example = checks_complete components finished schedule

ready_of_components_example :
    ((respond_with 5 finished.channel).status ≡ overall (map check components))
    × Permᴰ (respond_with 5 finished.channel).components (map describe (map check components))
ready_of_components_example = ready_of_components components finished 5 schedule refl

abbrev marshalled : HealthResponse → Option String
marshalled h = some h.status

ready_sent_run :
    let c' = conn_of (ready marshalled (respond_with 5 results) world).writer in
    (c'.status ≡ (if any is_fatal results then 503 else 200))
    × (values_of "X-Health-Status" c'.sent ≡ overall results ∷ [])
    × (values_of "Content-Type" c'.sent ≡ "application/json" ∷ [])
    × (c'.body ≡ (conn_of world.writer).body ++ String.◌++◌ "DOWN" "\n" ∷ [])
unfolding respond_with check
ready_sent_run = ready_sent marshalled 5 results world "DOWN" refl refl

abbrev slow : ComponentRegistration
slow = record database { name = "slow" }

abbrev is_slow : ComponentRegistration → Bool
is_slow c = c.name == "slow"

abbrev with_slow : List ComponentRegistration
with_slow = slow ∷ database ∷ []

-- The other check has been counted as done.
abbrev stuck : Pool
stuck = record {
  checking = slow ∷ [];
  sent = 0;
  wait = 1;
  channel = check database ∷ [];
  capacity = 2;
}

stuck-Schedule : Schedule is_slow (start with_slow) stuck
unfolding start
stuck-Schedule =
    Hung.next (Hung.next Hung.here (send (slow ∷ []) [] database refl (ground arith) refl) refl)
      (done 0 1 refl refl refl) tt

ready_blocks_example : stuck.wait ≢ 0
ready_blocks_example = ready_blocks is_slow with_slow stuck refl stuck-Schedule
