-- ===== src/Server/Once.antt =====
-- Each server of Start sends one message when it stops, and no other.
use yuna.Prelude.{ℕ, suc, ◌+◌, true, Option, none, some, List, [], ◌∷◌, ◌++◌, ◌≡◌, refl, arith}
use mathlib.Core.Path.{subst}
use yuna.Server.{
  Which, operations, main, server_closed, failed, Message, Phase, first, second, done, Running,
  started, receive, receive_first, receive_second, take_message, is_running, close, stop,
}
use yuna.Server.Steps.{stops, receives, Reach, begin, next, count}

-- How many of the messages are from this server.
abbrev pub sent_by : Which → List Message → ℕ
sent_by w [] = 0
sent_by operations ((operations, e) ∷ ms) = suc (sent_by operations ms)
sent_by operations ((main, e) ∷ ms) = sent_by operations ms
sent_by main ((operations, e) ∷ ms) = sent_by main ms
sent_by main ((main, e) ∷ ms) = suc (sent_by main ms)

sent_by-snoc :
    (w : Which) (ms : List Message) (m : Message)
    → sent_by w (ms ++ m ∷ []) ≡ sent_by w ms + sent_by w (m ∷ [])
sent_by-snoc operations [] m = ground arith
sent_by-snoc main [] m = ground arith
sent_by-snoc operations ((operations, e) ∷ ms) m = ground (arith, sent_by-snoc operations ms m)
sent_by-snoc operations ((main, e) ∷ ms) m = ground (arith, sent_by-snoc operations ms m)
sent_by-snoc main ((operations, e) ∷ ms) m = ground (arith, sent_by-snoc main ms m)
sent_by-snoc main ((main, e) ∷ ms) m = ground (arith, sent_by-snoc main ms m)

-- Each server runs, or has sent one message.
abbrev pub Once : List Message → Running → Type 0
Once ms s =
    (sent_by operations ms + count s.operations_running ≡ 1)
    × (sent_by main ms + count s.main_running ≡ 1)

abbrev IfOnce : List Message → Option Running → Type 0
IfOnce ms none = Unit
IfOnce ms (some s) = Once ms s

receive_first-Once :
    (ms q : List Message) (m : Message) (s : Running)
    → Once ms s
    → Once ms (receive_first m (record s { errs = q }))
unfolding receive_first close
receive_first-Once ms q (w, server_closed) s h = h
receive_first-Once ms q (w, failed e) s h = h

take_message-Once :
    (ms : List Message) (p : Phase) (q : List Message) (s : Running)
    → Once ms s
    → IfOnce ms (take_message p q s)
unfolding receive_second
take_message-Once ms (done o) q s h = tt
take_message-Once ms first [] s h = tt
take_message-Once ms second [] s h = tt
take_message-Once ms first (m ∷ q) s h = receive_first-Once ms q m s h
take_message-Once ms second (m ∷ q) s h = h

stop-Once :
    (ms : List Message) (m : Message) (s : Running)
    → is_running m.0 s ≡ true
    → Once ms s
    → Once (ms ++ m ∷ []) (stop m s)
unfolding stop
stop-Once ms (operations, e) s r (o, m) = (
  ground (arith, sent_by-snoc operations ms (operations, e)),
  ground (arith, sent_by-snoc main ms (operations, e)),
)
stop-Once ms (main, e) s r (o, m) = (
  ground (arith, sent_by-snoc operations ms (main, e)),
  ground (arith, sent_by-snoc main ms (main, e)),
)

pub Reach-Once : (ms : List Message) (s : Running) → Reach ms s → Once ms s
unfolding started receive
Reach-Once ms s begin = (refl, refl)
Reach-Once ms s (next {ms = ms'} {s = s'} r (stops m run room)) =
    stop-Once ms' m s' run (Reach-Once ms' s' r)
Reach-Once ms s (next {s = s'} r (receives e)) =
    subst (IfOnce ms) e (take_message-Once ms s'.phase s'.errs s' (Reach-Once ms s' r))
