-- ===== src/Server/Result.antt =====
-- What Start returns.
use yuna.Prelude.{
  ◌+◌, Bool, true, false, Option, none, some, List, [], ◌∷◌, ◌≡◌, refl, ◌⊎◌, ap, arith, ltb, leb,
  length, inl, inr,
}
use mathlib.Core.Path.{subst}
use yuna.Server.{
  Which, operations, main, server_closed, failed, Message, Phase, first, second, done, Running,
  capacity, started, receive, receive_first, receive_second, take_message, is_running, close,
}
use yuna.Server.Once.{sent_by, Once, Reach-Once}
use yuna.Server.Steps.{stops, receives, Reach, begin, next, count, Received, Inv, stop-Inv}

abbrev IfSome : List Message → Option Running → Type 0
IfSome ms none = Unit
IfSome ms (some s) = Inv ms s

receive_first-Inv :
    (ms q : List Message) (m : Message) (s : Running)
    → length ms + count s.operations_running + count s.main_running ≡ 2
    → ms ≡ m ∷ q
    → Inv ms (receive_first m (record s { errs = q }))
unfolding receive_first close
receive_first-Inv ms q (w, server_closed) s c h = (c, (w, h))
receive_first-Inv ms q (w, failed e) s c h = (c, (refl, inl h))

receive_second-Inv :
    (ms q : List Message) (m : Message) (s : Running)
    → length ms + count s.operations_running + count s.main_running ≡ 2
    → (w : Which) × (ms ≡ (w, server_closed) ∷ m ∷ q)
    → Inv ms (receive_second m (record s { errs = q }))
unfolding receive_second
receive_second-Inv ms q (v, server_closed) s c (w, h) = (c, (w, v, h))
receive_second-Inv ms q (v, failed e) s c h = (c, (refl, inr h))

take_message-Inv :
    (ms : List Message) (p : Phase) (q : List Message) (s : Running)
    → length ms + count s.operations_running + count s.main_running ≡ 2
    → Received ms p q
    → IfSome ms (take_message p q s)
take_message-Inv ms (done o) q s c h = tt
take_message-Inv ms first [] s c h = tt
take_message-Inv ms second [] s c h = tt
take_message-Inv ms first (m ∷ q) s c h = receive_first-Inv ms q m s c h
take_message-Inv ms second (m ∷ q) s c h = receive_second-Inv ms q m s c h

pub Reach-Inv : (ms : List Message) (s : Running) → Reach ms s → Inv ms s
unfolding started receive
Reach-Inv ms s begin = (refl, refl)
Reach-Inv ms s (next {ms = ms'} {s = s'} r (stops m run room)) =
    stop-Inv ms' s' m run (Reach-Inv ms' s' r)
Reach-Inv ms s (next {s = s'} r (receives e)) =
    let (c, h) = Reach-Inv ms s' r in
    subst (IfSome ms) e (take_message-Inv ms s'.phase s'.errs s' c h)

Received-length :
    (ms : List Message) (p : Phase) (q : List Message)
    → Received ms p q
    → leb (length q) (length ms) ≡ true
Received-length ms first q h = rw h (ground arith)
Received-length ms second q (w, h) = rw h (ground arith)
Received-length ms (done none) q (w, v, h) = rw h (ground arith)
Received-length ms (done (some m)) q (f, inl h) = rw h (ground arith)
Received-length ms (done (some m)) q (f, inr (w, h)) = rw h (ground arith)

-- The channel always has room for the goroutine of a server that still runs: no goroutine ever
-- blocks, even where Start has returned.
pub send_never_blocks :
    (ms : List Message) (s : Running) (w : Which)
    → Reach ms s
    → is_running w s ≡ true
    → ltb (length s.errs) capacity ≡ true
send_never_blocks ms s operations r run =
    let (c, h) = Reach-Inv ms s r in ground (arith, c, run, Received-length ms s.phase s.errs h)
send_never_blocks ms s main r run =
    let (c, h) = Reach-Inv ms s r in ground (arith, c, run, Received-length ms s.phase s.errs h)

-- What was received where Start has returned.
pub start-Received :
    (ms : List Message) (s : Running) (o : Option Message)
    → Reach ms s
    → s.phase ≡ done o
    → Received ms (done o) s.errs
start-Received ms s o r e = subst (λ p. Received ms p s.errs) e (Reach-Inv ms s r).1

-- What Start has returned, by the messages of its two servers, the oldest first.
abbrev pub Returned : Option Message → List Message → Running → Type 0
Returned none ms s =
    (s.operations_running ≡ false)
    × (s.main_running ≡ false)
    × ((ms ≡ (operations, server_closed) ∷ (main, server_closed) ∷ [])
        ⊎ (ms ≡ (main, server_closed) ∷ (operations, server_closed) ∷ []))
Returned (some m) ms s = Received ms (done (some m)) s.errs

both_sent :
    (w v : Which) (ms q : List Message) (s : Running)
    → Once ms s
    → ms ≡ (w, server_closed) ∷ (v, server_closed) ∷ q
    → length ms + count s.operations_running + count s.main_running ≡ 2
    → Returned none ms s
both_sent operations operations ms q s (o, m) h c = ground (arith, o, ap (sent_by operations) h)
both_sent main main ms q s (o, m) h c = ground (arith, m, ap (sent_by main) h)
both_sent w v ms (x ∷ q) s (o, m) h c = ground (arith, c, ap length h)
both_sent operations main ms [] s (o, m) h c =
    (ground (arith, c, ap length h), ground (arith, c, ap length h), inl h)
both_sent main operations ms [] s (o, m) h c =
    (ground (arith, c, ap length h), ground (arith, c, ap length h), inr h)

-- Where Start has returned nil, both servers have stopped: each has sent one message, which is
-- ErrServerClosed. Where it has returned an error, it is the message of a server that failed, the
-- first one unless the first to stop was closed.
pub start_result :
    (ms : List Message) (s : Running) (o : Option Message)
    → Reach ms s
    → s.phase ≡ done o
    → Returned o ms s
start_result ms s none r e =
    let (w, v, h) = start-Received ms s none r e in
    both_sent w v ms s.errs s (Reach-Once ms s r) h (Reach-Inv ms s r).0
start_result ms s (some m) r e = start-Received ms s (some m) r e

-- One receive of Start, if it can do one.
abbrev pub advance : Running → Running
advance s = or_stay s (receive s)
  where
    or_stay : Running → Option Running → Running
    or_stay s none = s
    or_stay s (some s') = s'

abbrev pub has_returned : Phase → Bool
has_returned (done o) = true
has_returned _ = false

advance_twice :
    (a b c d : Bool) (ms q : List Message) (p : Phase)
    → length ms ≡ 2
    → Received ms p q
    → has_returned
        (advance (
          advance record {
            operations_running = a;
            main_running = b;
            operations_closed = c;
            main_closed = d;
            errs = q;
            phase = p;
          })).phase
      ≡ true
unfolding receive receive_first receive_second close
advance_twice a b c d ms q (done o) n h = refl
advance_twice a b c d ms (m ∷ q) second n h = refl
advance_twice a b c d ms [] second n (w, h) = ground (arith, n, ap length h)
advance_twice a b c d ms [] first n h = ground (arith, n, ap length h)
advance_twice a b c d ms (m ∷ []) first n h = ground (arith, n, ap length h)
advance_twice a b c d ms ((w, server_closed) ∷ m ∷ q) first n h = refl
advance_twice a b c d ms ((w, failed e) ∷ m ∷ q) first n h = refl

-- Once both servers have stopped, Start returns after at most two more receives, wherever it stood.
pub start_returns :
    (ms : List Message) (s : Running)
    → Reach ms s
    → s.operations_running ≡ false
    → s.main_running ≡ false
    → has_returned (advance (advance s)).phase ≡ true
start_returns ms s r o m =
    let (c, h) = Reach-Inv ms s r in
    advance_twice s.operations_running s.main_running s.operations_closed s.main_closed ms s.errs
      s.phase (ground (arith, c, o, m)) h
