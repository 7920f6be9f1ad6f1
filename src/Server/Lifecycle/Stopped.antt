-- ===== src/Server/Lifecycle/Stopped.antt =====
-- When Start returns nil.
use yuna.Prelude.{
  Bool, true, false, not, Option, none, some, List, [], ◌∷◌, ◌++◌, ◌≡◌, refl, ap, ◌∙◌, ◌||◌, ◌&&◌,
  length, any, arith, any-append,
}
use mathlib.Core.Path.{subst}
use yuna.Server.{
  Which, operations, main, server_closed, failed, Message, Running, done, receive, stop, is_failure,
  started, close, receive_first, receive_second, take_message, Phase, first, second,
}
use yuna.Server.Result.{start-Received, Reach-Inv}
use yuna.Server.Steps.{Received}
use yuna.Server.Shutdown
use yuna.Server.Shutdown.{
  Shutting, calls_operations, calls_main, operations_back, main_back, time_passes, returns,
}
use yuna.Server.Lifecycle.{
  Life, born, told, ordered, Lived, begin, next, stops_closed, stops_failed, receives, shuts_down,
  closes_operations, closes_main, Lived-Reach,
}

-- Some server has failed, or Start has closed none, and each server that has stopped was ordered to.
abbrev settled : List Message → Life → Bool
settled ms l =
    any is_failure ms
    || (not l.start.operations_closed
        && not l.start.main_closed
        && (l.start.operations_running || ordered operations l)
        && (l.start.main_running || ordered main l))

abbrev IfSettled : List Message → Life → Option Running → Type 0
IfSettled ms l none = Unit
IfSettled ms l (some s) = settled ms (record l { start = s }) ≡ true

receive_first-settled :
    (ms : List Message) (l : Life) (m : Message) (q : List Message)
    → ms ≡ m ∷ q
    → settled ms l ≡ true
    → settled ms (record l { start = receive_first m (record l.start { errs = q }) }) ≡ true
unfolding receive_first close ordered
receive_first-settled ms l (w, server_closed) q e h = h
receive_first-settled ms l (w, failed x) q e h = ground (arith, ap (any is_failure) e)

receive-settled :
    (ms : List Message) (l : Life) (p : Phase) (q : List Message)
    → Received ms p q
    → settled ms l ≡ true
    → IfSettled ms l (take_message p q l.start)
unfolding ordered receive_second
receive-settled ms l (done o) q e h = tt
receive-settled ms l first [] e h = tt
receive-settled ms l second [] e h = tt
receive-settled ms l first (m ∷ q) e h = receive_first-settled ms l m q e h
receive-settled ms l second (m ∷ q) e h = h

shutdown-settled :
    (ms : List Message) (l : Life) (t : Shutting)
    → Shutdown.Step l.shutdown t
    → settled ms l ≡ true
    → settled ms (record l { shutdown = t }) ≡ true
unfolding ordered
shutdown-settled ms l t (calls_operations e) h = ground (arith, h)
shutdown-settled ms l t (calls_main e) h = ground (arith, h)
shutdown-settled ms l t (operations_back x e) h = ground (arith, h)
shutdown-settled ms l t (main_back x e) h = ground (arith, h)
shutdown-settled ms l t time_passes h = h
shutdown-settled ms l t (returns x e n) h = h

stop-settled :
    (ms : List Message) (l : Life) (w : Which)
    → told w l ≡ true
    → settled ms l ≡ true
    → settled (ms ++ (w, server_closed) ∷ []) (record l { start = stop (w, server_closed) l.start })
      ≡ true
unfolding told ordered stop
stop-settled ms l operations t h =
    ground (arith, any-append is_failure ms ((operations, server_closed) ∷ []))
stop-settled ms l main t h = ground (arith, any-append is_failure ms ((main, server_closed) ∷ []))

Lived-settled : (ms : List Message) (l : Life) → Lived ms l → settled ms l ≡ true
unfolding born started receive ordered
Lived-settled ms l begin = refl
Lived-settled ms l (next {ms = ms'} {l = l'} h (stops_closed w r t f)) =
    stop-settled ms' l' w t (Lived-settled ms' l' h)
Lived-settled ms l (next {ms = ms'} h (stops_failed w e r f)) =
    ground (arith, any-append is_failure ms' ((w, failed e) ∷ []))
Lived-settled ms l (next {l = l'} h (receives e)) = subst (IfSettled ms l') e (
    receive-settled ms l' l'.start.phase l'.start.errs (Reach-Inv ms l'.start (Lived-Reach h)).1
      (Lived-settled ms l' h))
Lived-settled ms l (next {l = l'} h (shuts_down {t = t} s)) =
    shutdown-settled ms l' t s (Lived-settled ms l' h)
Lived-settled ms l (next {l = l'} h closes_operations) = ground (arith, Lived-settled ms l' h)
Lived-settled ms l (next {l = l'} h closes_main) = ground (arith, Lived-settled ms l' h)

any_of_empty : (q : List Message) → length q ≡ 0 → any is_failure q ≡ false
any_of_empty [] h = refl
any_of_empty (m ∷ q) h = ground (arith, h)

-- Both servers have stopped, and none has failed.
both_closed :
    (ms : List Message) (l : Life)
    → Lived ms l
    → l.start.phase ≡ done none
    → (any is_failure ms ≡ false)
      × (l.start.operations_running ≡ false)
      × (l.start.main_running ≡ false)
both_closed ms l h e =
    let (w, v, shape) = start-Received ms l.start none (Lived-Reach h) e in
    let counted = (Reach-Inv ms l.start (Lived-Reach h)).0 in
    let failures = ap (any is_failure) shape in
    let sent = ap length shape in
    (
      failures ∙ any_of_empty l.start.errs (ground (arith, counted, sent)),
      ground (arith, counted, sent),
      ground (arith, counted, sent),
    )

-- Start returns nil only where Shutdown or Close has told both servers to stop: in every interleaving of Start with the goroutines that it starts and with Shutdown and Close.
pub start_nil_was_told :
    (ms : List Message) (l : Life)
    → Lived ms l
    → l.start.phase ≡ done none
    → (ordered operations l ≡ true) × (ordered main l ≡ true)
start_nil_was_told ms l h e =
    let (failures, o, m) = both_closed ms l h e in
    let s = Lived-settled ms l h in
    (ground (arith, s, failures, o, m), ground (arith, s, failures, o, m))
