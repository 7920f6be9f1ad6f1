-- ===== src/Server/Tests.antt =====
-- Start, where the operations server is closed and the main one fails.
use yuna.Prelude.{true, Option, none, some, List, [], ◌∷◌, ◌≡◌, refl, ltb, leb, length, ◌⊎◌}
use yuna.Server.{
  operations, main, server_closed, failed, Message, second, done, Running, capacity, started,
  receive, stop,
}
use yuna.Server.Steps.{stops, receives, Reach, begin, next}
use yuna.Server.Shutdown.{
  Shutting, Closing, serving, draining, closed, called, calls_operations, calls_main, main_back,
  returns, shutdown_result,
}
use yuna.Server.Shutdown
use yuna.Server.Ends.{start_terminates, steps, CanStep}
use yuna.Server.Result.{
  start_result, Returned, start_returns, send_never_blocks, advance, has_returned,
}

-- The operations server is closed, and then the main one fails; Start receives both.
abbrev closed_message : Message
closed_message = (operations, server_closed)

abbrev failed_message : Message
failed_message = (main, failed "bind: address already in use")

abbrev both_stopped : Running
both_stopped = stop failed_message (stop closed_message started)

abbrev messages : List Message
messages = closed_message ∷ failed_message ∷ []

both_reached : Reach messages both_stopped
unfolding started stop
both_reached = next (next begin (stops closed_message refl refl)) (stops failed_message refl refl)

abbrev received_one : Running
received_one = record both_stopped { errs = failed_message ∷ []; phase = second }

abbrev returned_error : Running
returned_error = record both_stopped { errs = []; phase = done (some failed_message) }

error_reached : Reach messages returned_error
unfolding started stop receive
error_reached = next (next {s' = received_one} both_reached (receives refl)) (receives refl)

abbrev main_runs : Running
main_runs = stop closed_message started

abbrev one_message : List Message
one_message = closed_message ∷ []

main_runs_reached : Reach one_message main_runs
unfolding started
main_runs_reached = next begin (stops closed_message refl refl)

abbrev outcome : Option Message
outcome = some failed_message

start_result_example : Returned outcome messages returned_error
unfolding started stop
start_result_example = start_result messages returned_error outcome error_reached refl

start_returns_run : has_returned (advance (advance both_stopped)).phase ≡ true
unfolding started stop
start_returns_run = start_returns messages both_stopped both_reached refl refl

send_never_blocks_example : ltb (length main_runs.errs) capacity ≡ true
unfolding started stop
send_never_blocks_example = send_never_blocks one_message main_runs main main_runs_reached refl

start_terminates_example :
    (leb (steps main_runs_reached) 4 ≡ true)
    × ((has_returned main_runs.phase ≡ true) ⊎ CanStep main_runs)
start_terminates_example = start_terminates one_message main_runs main_runs_reached

-- The main server is down at once, and Shutdown returns while the operations server waits.
abbrev early : Shutting
early = record {
  operations_server = draining;
  main_server = closed none;
  is_done = true;
  result = some none;
}

early_reached : Shutdown.Reach early
unfolding called
early_reached =
    Shutdown.next
      (Shutdown.next
        (Shutdown.next (Shutdown.next Shutdown.begin (calls_operations refl)) (calls_main refl))
        (main_back none refl))
      (returns none refl refl)

shutdown_result_run : (early.main_server ≡ closed none) × (early.is_done ≡ true)
shutdown_result_run = shutdown_result early none early_reached refl
