-- ===== src/Server/Lifecycle.antt =====
-- yuna.go: Start together with Shutdown and Close, which another goroutine calls. What net/http
-- documents is that a server that was told to shut down or to close stops with ErrServerClosed, at
-- once, whether or not its Shutdown is back.
pub mod Stopped
pub mod Early
mod Tests
use yuna.Prelude.{
  Bool, true, false, Option, none, some, List, [], ◌∷◌, ◌++◌, ◌≡◌, ◌||◌, ltb, length, any, String,
}
use yuna.Server.{
  Which, operations, main, server_closed, failed, Message, Running, capacity, started, receive,
  is_running, stop,
}
use yuna.Server.Steps
use yuna.Server.Steps.{note}
use yuna.Server.Shutdown
use yuna.Server.Shutdown.{Closing, serving, Shutting, called}

-- The server as a whole: Start, Shutdown, and which of the two servers `Close` has closed.
pub record Life : Type 0 where
  pub start : Running
  pub shutdown : Shutting
  pub close_operations : Bool
  pub close_main : Bool

unfoldable pub born : Life
unfolding started called
born = record { start = started; shutdown = called; close_operations = false; close_main = false }

abbrev pub is_told : Closing → Bool
is_told serving = false
is_told _ = true

-- The server was told to stop by Close or by Shutdown.
unfoldable pub ordered : Which → Life → Bool
ordered operations l = l.close_operations || is_told l.shutdown.operations_server
ordered main l = l.close_main || is_told l.shutdown.main_server

-- The server was told to stop: by Close, by Shutdown, or by Start itself, which closes both where one
-- has failed.
unfoldable pub told : Which → Life → Bool
told operations l =
    l.close_operations || is_told l.shutdown.operations_server || l.start.operations_closed
told main l = l.close_main || is_told l.shutdown.main_server || l.start.main_closed

-- The message is the one that a goroutine of Start sends.
pub data LifeStep : Life → Option Message → Life → Type 0 where
  stops_closed :
      {l : Life} (w : Which)
      → is_running w l.start ≡ true
      → told w l ≡ true
      → ltb (length l.start.errs) capacity ≡ true
      → LifeStep l (some (w, server_closed)) (record l { start = stop (w, server_closed) l.start })
  stops_failed :
      {l : Life} (w : Which) (e : String)
      → is_running w l.start ≡ true
      → ltb (length l.start.errs) capacity ≡ true
      → LifeStep l (some (w, failed e)) (record l { start = stop (w, failed e) l.start })
  receives :
      {l : Life} {s : Running} → receive l.start ≡ some s → LifeStep l none (record l { start = s })
  shuts_down :
      {l : Life} {t : Shutting}
      → Shutdown.Step l.shutdown t
      → LifeStep l none (record l { shutdown = t })
  closes_operations : {l : Life} → LifeStep l none (record l { close_operations = true })
  closes_main : {l : Life} → LifeStep l none (record l { close_main = true })

-- The states of a server, with the messages that were sent, the oldest first.
pub data Lived : List Message → Life → Type 0 where
  begin : Lived [] born
  next :
      {ms : List Message} {l l' : Life} {o : Option Message}
      → Lived ms l
      → LifeStep l o l'
      → Lived (note o ms) l'

-- Start's own part of a life is a run of Start, whatever Shutdown and Close do meanwhile.
pub Lived-Reach : {ms : List Message} {l : Life} → Lived ms l → Steps.Reach ms l.start
unfolding born
Lived-Reach begin = Steps.begin
Lived-Reach (next h (stops_closed w r t f)) =
    Steps.next (Lived-Reach h) (Steps.stops (w, server_closed) r f)
Lived-Reach (next h (stops_failed w e r f)) =
    Steps.next (Lived-Reach h) (Steps.stops (w, failed e) r f)
Lived-Reach (next h (receives e)) = Steps.next (Lived-Reach h) (Steps.receives e)
Lived-Reach (next h (shuts_down s)) = Lived-Reach h
Lived-Reach (next h closes_operations) = Lived-Reach h
Lived-Reach (next h closes_main) = Lived-Reach h
