-- ===== src/Server/Lifecycle/Early.antt =====
-- Start does not wait for Shutdown.
use yuna.Prelude.{
  true, false, none, some, List, [], ◌∷◌, ◌++◌, ◌≡◌, refl, ap, ltb, length, any, arith, any-append,
  Bool-cases, inl, inr,
}
use yuna.Server.{
  Which, operations, main, server_closed, failed, Message, Running, done, receive, is_running, stop,
  is_failure, receive_first, receive_second, Phase, first, second, capacity,
}
use yuna.Server.Steps.{Received}
use yuna.Server.Result.{Reach-Inv, send_never_blocks}
use yuna.Server.Lifecycle.{Life, told, Lived, next, stops_closed, Lived-Reach}

-- Steps of Start and its two goroutines alone, with no server failing: Shutdown and Close do nothing.
pub data OwnRun : Life → Life → Type 0 where
  here : {l : Life} → OwnRun l l
  stops_then :
      {l l' : Life} (w : Which)
      → is_running w l.start ≡ true
      → told w l ≡ true
      → ltb (length l.start.errs) capacity ≡ true
      → OwnRun (record l { start = stop (w, server_closed) l.start }) l'
      → OwnRun l l'
  receives_then :
      {l l' : Life} {s : Running}
      → receive l.start ≡ some s
      → OwnRun (record l { start = s }) l'
      → OwnRun l l'

-- Such a run ends where Start has returned nil, and Shutdown stands where it stood.
abbrev pub EndsWell : Life → Type 0
EndsWell l = (l' : Life) × OwnRun l l' × (l'.start.phase ≡ done none) × (l'.shutdown ≡ l.shutdown)

drain_from :
    (ms : List Message) (l : Life) (p : Phase) (q : List Message)
    → length ms ≡ 2
    → any is_failure ms ≡ false
    → Received ms p q
    → EndsWell (record l { start = record l.start { errs = q; phase = p } })
unfolding receive receive_first receive_second
drain_from ms l (done none) q n f h = (_, here, refl, refl)
drain_from ms l (done (some m)) q n f (x, inl h) = ground (arith, f, x, ap (any is_failure) h)
drain_from ms l (done (some m)) q n f (x, inr (w, h)) = ground (arith, f, x, ap (any is_failure) h)
drain_from ms l second [] n f (w, h) = ground (arith, n, ap length h)
drain_from ms l second ((v, server_closed) ∷ q) n f (w, h) =
    (_, receives_then refl here, refl, refl)
drain_from ms l second ((v, failed e) ∷ q) n f (w, h) = ground (arith, f, ap (any is_failure) h)
drain_from ms l first [] n f h = ground (arith, n, ap length h)
drain_from ms l first (m ∷ []) n f h = ground (arith, n, ap length h)
drain_from ms l first ((w, failed e) ∷ q) n f h = ground (arith, f, ap (any is_failure) h)
drain_from ms l first ((w, server_closed) ∷ (v, failed e) ∷ q) n f h =
    ground (arith, f, ap (any is_failure) h)
drain_from ms l first ((w, server_closed) ∷ (v, server_closed) ∷ q) n f h =
    (_, receives_then refl (receives_then refl here), refl, refl)

-- With both servers stopped, Start receives what is in the channel.
drain :
    (ms : List Message) (l : Life)
    → Lived ms l
    → any is_failure ms ≡ false
    → l.start.operations_running ≡ false
    → l.start.main_running ≡ false
    → EndsWell l
drain ms l h f o m =
    let (counted, received) = Reach-Inv ms l.start (Lived-Reach h) in
    drain_from ms l l.start.phase l.start.errs (ground (arith, counted, o, m)) f received

-- Whatever the run behind `l'` does, the server stops first.
stop_first :
    (ms : List Message) (l : Life) (w : Which)
    → Lived ms l
    → is_running w l.start ≡ true
    → told w l ≡ true
    → EndsWell (record l { start = stop (w, server_closed) l.start })
    → EndsWell l
stop_first ms l w h r t (l', run, nil, same) =
    (l', stops_then w r t (send_never_blocks ms l.start w (Lived-Reach h) r) run, nil, same)

stopped_Lived :
    (ms : List Message) (l : Life) (w : Which)
    → Lived ms l
    → is_running w l.start ≡ true
    → told w l ≡ true
    → Lived (ms ++ (w, server_closed) ∷ []) (record l { start = stop (w, server_closed) l.start })
stopped_Lived ms l w h r t =
    next h (stops_closed w r t (send_never_blocks ms l.start w (Lived-Reach h) r))

no_failure :
    (ms : List Message) (w : Which)
    → any is_failure ms ≡ false
    → any is_failure (ms ++ (w, server_closed) ∷ []) ≡ false
no_failure ms w f = ground (arith, f, any-append is_failure ms ((w, server_closed) ∷ []))

stop_main :
    (ms : List Message) (l : Life)
    → Lived ms l
    → any is_failure ms ≡ false
    → told main l ≡ true
    → l.start.operations_running ≡ false
    → EndsWell l
unfolding stop
stop_main ms l h f t o = elim (Bool-cases l.start.main_running) [
  | inl m ↦
      stop_first ms l main h m t
        (drain _ _ (stopped_Lived ms l main h m t) (no_failure ms main f) o refl)
  | inr m ↦ drain ms l h f o m
]

-- Start does not wait for Shutdown to come back: from wherever both servers were told to stop and
-- none has failed, Start and its goroutines come to return nil by steps of their own, with Shutdown
-- left where it stands, its requests still in flight.
pub start_ends_before_shutdown :
    (ms : List Message) (l : Life)
    → Lived ms l
    → any is_failure ms ≡ false
    → told operations l ≡ true
    → told main l ≡ true
    → (l' : Life) × OwnRun l l' × (l'.start.phase ≡ done none) × (l'.shutdown ≡ l.shutdown)
unfolding stop told
start_ends_before_shutdown ms l h f t t' = elim (Bool-cases l.start.operations_running) [
  | inl o ↦
      stop_first ms l operations h o t
        (stop_main _ _ (stopped_Lived ms l operations h o t) (no_failure ms operations f) t' refl)
  | inr o ↦ stop_main ms l h f t' o
]
