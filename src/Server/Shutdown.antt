-- ===== src/Server/Shutdown.antt =====
-- yuna.go: Shutdown, with the two servers that it shuts down at once.
use yuna.Prelude.{String, Bool, true, false, Option, none, some, ◌≡◌, refl, ap, arith}
use mathlib.Core.Path.{subst}

-- A server, by the call of its Shutdown: not called yet, waiting for its requests, or back with its
-- error.
pub data Closing : Type 0 where
  serving draining : Closing
  closed : Option String → Closing

-- `is_done` is the context's: its time has passed, or it was cancelled. The result is there once
-- Shutdown has returned.
pub record Shutting : Type 0 where
  pub operations_server : Closing
  pub main_server : Closing
  pub is_done : Bool
  pub result : Option (Option String)

unfoldable pub called : Shutting
called = record {
  operations_server = serving;
  main_server = serving;
  is_done = false;
  result = none;
}

-- What goes on: the goroutine calls the Shutdown of the operations server, and Shutdown itself that of
-- the main one; a server's Shutdown comes back, with an error that is the context's only where that
-- is done; the time passes; and Shutdown returns the main server's error, which cancels the context.
pub data Step : Shutting → Shutting → Type 0 where
  calls_operations :
      {s : Shutting}
      → s.operations_server ≡ serving
      → Step s (record s { operations_server = draining })
  calls_main :
      {s : Shutting} → s.main_server ≡ serving → Step s (record s { main_server = draining })
  operations_back :
      {s : Shutting} (e : Option String)
      → s.operations_server ≡ draining
      → Step s (record s { operations_server = closed e })
  main_back :
      {s : Shutting} (e : Option String)
      → s.main_server ≡ draining
      → Step s (record s { main_server = closed e })
  time_passes : {s : Shutting} → Step s (record s { is_done = true })
  returns :
      {s : Shutting} (e : Option String)
      → s.main_server ≡ closed e
      → s.result ≡ none
      → Step s (record s { is_done = true; result = some e })

pub data Reach : Shutting → Type 0 where
  begin : Reach called
  next : {s s' : Shutting} → Reach s → Step s s' → Reach s'

abbrev is_closed : Closing → Bool
is_closed (closed e) = true
is_closed _ = false

abbrev Returned : Option (Option String) → Closing → Bool → Type 0
Returned none c d = Unit
Returned (some e) c d = (c ≡ closed e) × (d ≡ true)

Returned-closing :
    (r : Option (Option String)) (c c' : Closing) (d : Bool)
    → is_closed c ≡ false
    → Returned r c d
    → Returned r c' d
Returned-closing none c c' d h i = tt
Returned-closing (some e) c c' d h (i, j) = ground (arith, h, ap is_closed i)

Returned-done :
    (r : Option (Option String)) (c : Closing) (d : Bool) → Returned r c d → Returned r c true
Returned-done none c d i = tt
Returned-done (some e) c d (i, j) = (i, refl)

Reach-Returned : (s : Shutting) → Reach s → Returned s.result s.main_server s.is_done
unfolding called
Reach-Returned s begin = tt
Reach-Returned s (next r (calls_operations h)) = Reach-Returned _ r
Reach-Returned s (next {s = s0} r (calls_main h)) =
    Returned-closing s0.result s0.main_server draining s0.is_done (ap is_closed h)
      (Reach-Returned s0 r)
Reach-Returned s (next r (operations_back e h)) = Reach-Returned _ r
Reach-Returned s (next {s = s0} r (main_back e h)) =
    Returned-closing s0.result s0.main_server (closed e) s0.is_done (ap is_closed h)
      (Reach-Returned s0 r)
Reach-Returned s (next {s = s0} r time_passes) =
    Returned-done s0.result s0.main_server s0.is_done (Reach-Returned s0 r)
Reach-Returned s (next r (returns e h n)) = (h, refl)

-- Once Shutdown has returned, whatever the operations server has come to, its error is the one of the
-- main server's Shutdown, which has come back, and the context is done: the operations server has no
-- grace period any more, even where no time has passed.
pub shutdown_result :
    (s : Shutting) (e : Option String)
    → Reach s
    → s.result ≡ some e
    → (s.main_server ≡ closed e) × (s.is_done ≡ true)
shutdown_result s e r h = subst (λ o. Returned o s.main_server s.is_done) h (Reach-Returned s r)
