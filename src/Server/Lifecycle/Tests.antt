-- ===== src/Server/Lifecycle/Tests.antt =====
-- Shutdown has called both servers, and waits for their requests.
use yuna.Prelude.{true, none, List, [], ◌∷◌, ◌≡◌, refl}
use yuna.Server.{
  operations, main, server_closed, Message, Running, done, second, started, stop, receive,
}
use yuna.Server.Shutdown.{calls_operations, calls_main, called, draining}
use yuna.Server.Lifecycle.{
  Life, born, told, ordered, Lived, begin, next, shuts_down, stops_closed, receives,
}
use yuna.Server.Lifecycle.Stopped.{start_nil_was_told}
use yuna.Server.Lifecycle.Early.{OwnRun, start_ends_before_shutdown}

abbrev draining_life : Life
draining_life = record born {
  shutdown = record called { operations_server = draining; main_server = draining };
}

abbrev nothing_sent : List Message
nothing_sent = []

draining-Lived : Lived nothing_sent draining_life
unfolding born called
draining-Lived =
    next (next begin (shuts_down (calls_operations refl))) (shuts_down (calls_main refl))

start_ends_before_shutdown_example :
    (l' : Life) × OwnRun draining_life l'
    × (l'.start.phase ≡ done none)
    × (l'.shutdown ≡ draining_life.shutdown)
unfolding told born
start_ends_before_shutdown_example =
    start_ends_before_shutdown nothing_sent draining_life draining-Lived refl refl refl

abbrev closed_messages : List Message
closed_messages = (operations, server_closed) ∷ (main, server_closed) ∷ []

abbrev both_closed : Running
both_closed = stop (main, server_closed) (stop (operations, server_closed) started)

abbrev closed_life : Life
closed_life = record draining_life { start = record both_closed { errs = []; phase = done none } }

closed-Lived : Lived closed_messages closed_life
unfolding born called started stop told receive
closed-Lived =
    next
      (next
        (next (next draining-Lived (stops_closed operations refl refl refl))
          (stops_closed main refl refl refl))
        (receives {s = record both_closed { errs = (main, server_closed) ∷ []; phase = second }}
          refl))
      (receives refl)

start_nil_was_told_example :
    (ordered operations closed_life ≡ true) × (ordered main closed_life ≡ true)
unfolding started stop
start_nil_was_told_example = start_nil_was_told closed_messages closed_life closed-Lived refl
