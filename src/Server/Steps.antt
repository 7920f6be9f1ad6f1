-- ===== src/Server/Steps.antt =====
-- The interleavings of Start with its two servers.
use yuna.Prelude.{
  ℕ, ◌+◌, Bool, true, false, Option, none, some, List, [], ◌∷◌, ◌++◌, ◌≡◌, ap, arith, ltb, length,
  length-append, ◌⊎◌, inl, inr,
}
use yuna.Server.{
  Which, operations, main, server_closed, Message, Phase, first, second, done, Running, capacity,
  started, is_failure, receive, is_running, stop,
}

-- A goroutine sends only while the channel has room: otherwise it would block.
pub data Step : Running → Option Message → Running → Type 0 where
  stops :
      {s : Running} (m : Message)
      → is_running m.0 s ≡ true
      → ltb (length s.errs) capacity ≡ true
      → Step s (some m) (stop m s)
  receives : {s s' : Running} → receive s ≡ some s' → Step s none s'

abbrev pub note : Option Message → List Message → List Message
note none ms = ms
note (some m) ms = ms ++ m ∷ []

-- The states that Start can be in, with the messages that were sent, the oldest first.
pub data Reach : List Message → Running → Type 0 where
  begin : Reach [] started
  next :
      {ms : List Message} {s s' : Running} {o : Option Message}
      → Reach ms s
      → Step s o s'
      → Reach (note o ms) s'

abbrev pub count : Bool → ℕ
count true = 1
count false = 0

-- What has been received, by where Start stands: `q` is what is still in the channel.
abbrev pub Received : List Message → Phase → List Message → Type 0
Received ms first q = ms ≡ q
Received ms second q = (w : Which) × (ms ≡ (w, server_closed) ∷ q)
Received ms (done none) q =
    (w : Which) × (v : Which) × (ms ≡ (w, server_closed) ∷ (v, server_closed) ∷ q)
Received ms (done (some m)) q =
    (is_failure m ≡ true) × ((ms ≡ m ∷ q) ⊎ ((w : Which) × (ms ≡ (w, server_closed) ∷ m ∷ q)))

abbrev pub Inv : List Message → Running → Type 0
Inv ms s =
    (length ms + count s.operations_running + count s.main_running ≡ 2) × Received ms s.phase s.errs

Received-snoc :
    (ms : List Message) (p : Phase) (q : List Message) (m : Message)
    → Received ms p q
    → Received (ms ++ m ∷ []) p (q ++ m ∷ [])
Received-snoc ms first q m h = ap (λ xs. xs ++ m ∷ []) h
Received-snoc ms second q m (w, h) = (w, ap (λ xs. xs ++ m ∷ []) h)
Received-snoc ms (done none) q m (w, v, h) = (w, v, ap (λ xs. xs ++ m ∷ []) h)
Received-snoc ms (done (some n)) q m (f, inl h) = (f, inl (ap (λ xs. xs ++ m ∷ []) h))
Received-snoc ms (done (some n)) q m (f, inr (w, h)) = (f, inr (w, ap (λ xs. xs ++ m ∷ []) h))

pub stop-Inv :
    (ms : List Message) (s : Running) (m : Message)
    → is_running m.0 s ≡ true
    → Inv ms s
    → Inv (ms ++ m ∷ []) (stop m s)
unfolding stop
stop-Inv ms s (operations, e) r (c, h) = (
  ground (arith, length-append ms ((operations, e) ∷ [])),
  Received-snoc ms s.phase s.errs (operations, e) h,
)
stop-Inv ms s (main, e) r (c, h) =
    (ground (arith, length-append ms ((main, e) ∷ [])), Received-snoc ms s.phase s.errs (main, e) h)
