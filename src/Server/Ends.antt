-- ===== src/Server/Ends.antt =====
-- How long Start runs.
use yuna.Prelude.{
  ℕ, suc, ◌+◌, ◌*◌, Bool, true, false, Option, none, some, List, [], ◌∷◌, ◌≡◌, refl, ap, arith, leb,
  length, length-append, ◌⊎◌, inl, inr,
}
use mathlib.Core.Path.{subst}
use yuna.Server.{
  operations, main, server_closed, failed, Message, Phase, first, second, done, Running, started,
  receive, receive_first, receive_second, take_message, is_running, close, stop,
}
use yuna.Server.Steps.{Step, stops, receives, Reach, begin, next, count, Received}
use yuna.Server.Result.{Reach-Inv, send_never_blocks, has_returned}

-- The number of steps of a run.
abbrev pub steps : {ms : List Message} {s : Running} → Reach ms s → ℕ
steps begin = 0
steps (next r _) = suc (steps r)

-- The steps that are left: a stop and a receive for each server that runs, and a receive for each
-- message in the channel.
abbrev left : Running → ℕ
left s = 2 * (count s.operations_running + count s.main_running) + length s.errs

stop-left : (s : Running) (m : Message) → is_running m.0 s ≡ true → suc (left (stop m s)) ≡ left s
unfolding stop
stop-left s (operations, e) run = ground (arith, run, length-append s.errs ((operations, e) ∷ []))
stop-left s (main, e) run = ground (arith, run, length-append s.errs ((main, e) ∷ []))

abbrev IfLess : ℕ → Option Running → Type 0
IfLess n none = Unit
IfLess n (some s) = suc (left s) ≡ n

receive_first-left : (m : Message) (s : Running) → left (receive_first m s) ≡ left s
unfolding receive_first close
receive_first-left (w, server_closed) s = refl
receive_first-left (w, failed e) s = refl

take_message-left :
    (p : Phase) (q : List Message) (s : Running) → s.errs ≡ q → IfLess (left s) (take_message p q s)
unfolding receive_second
take_message-left (done o) q s h = tt
take_message-left first [] s h = tt
take_message-left second [] s h = tt
take_message-left first (m ∷ q) s h =
    rw (receive_first-left m (record s { errs = q })) (ground (arith, h))
take_message-left second (m ∷ q) s h = ground (arith, h)

steps-left : {ms : List Message} {s : Running} (r : Reach ms s) → steps r + left s ≡ 4
unfolding started receive
steps-left begin = refl
steps-left (next {s = s} r (stops m run room)) = omega (arith, steps-left r, stop-left s m run)
steps-left (next {s = s} {s' = s'} r (receives e)) =
    let h = subst (IfLess (left s)) e (take_message-left s.phase s.errs s refl) in
    omega (arith, steps-left r, h)

-- With both messages sent, Start has returned, or there is one to receive.
can_receive :
    (ms : List Message) (p : Phase) (q : List Message) (s : Running)
    → length ms ≡ 2
    → Received ms p q
    → (has_returned p ≡ true) ⊎ ((s' : Running) × (take_message p q s ≡ some s'))
can_receive ms (done o) q s n h = inl refl
can_receive ms first (m ∷ q) s n h = inr (receive_first m (record s { errs = q }), refl)
can_receive ms second (m ∷ q) s n h = inr (receive_second m (record s { errs = q }), refl)
can_receive ms first [] s n h = ground (arith, n, ap length h)
can_receive ms second [] s n (w, h) = ground (arith, n, ap length h)

abbrev pub CanStep : Running → Type 0
CanStep s = (o : Option Message) × (s' : Running) × Step s o s'

received-CanStep :
    {s : Running}
    → (has_returned s.phase ≡ true) ⊎ ((s' : Running) × (take_message s.phase s.errs s ≡ some s'))
    → (has_returned s.phase ≡ true) ⊎ CanStep s
unfolding receive
received-CanStep (inl h) = inl h
received-CanStep (inr (s', h)) = inr (none, s', receives h)

progress :
    (ms : List Message) (s : Running) (a b : Bool)
    → Reach ms s
    → s.operations_running ≡ a
    → s.main_running ≡ b
    → (has_returned s.phase ≡ true) ⊎ CanStep s
progress ms s true b r oa mb =
    inr (some (operations, server_closed), _, stops _ oa (send_never_blocks ms s operations r oa))
progress ms s false true r oa mb =
    inr (some (main, server_closed), _, stops _ mb (send_never_blocks ms s main r mb))
progress ms s false false r oa mb =
    let (c, h) = Reach-Inv ms s r in
    received-CanStep (can_receive ms s.phase s.errs s (ground (arith, c, oa, mb)) h)

-- Start ends: a run, in whatever order the servers stop and Start receives, has at most four steps,
-- and where it stands, either Start has returned, or there is a further step.
pub start_terminates :
    (ms : List Message) (s : Running) (r : Reach ms s)
    → (leb (steps r) 4 ≡ true) × ((has_returned s.phase ≡ true) ⊎ CanStep s)
start_terminates ms s r =
    (ground (arith, steps-left r), progress ms s s.operations_running s.main_running r refl refl)
