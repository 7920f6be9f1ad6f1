-- ===== src/Server.antt =====
-- yuna.go: Start and StartTLS, with the two servers that they run. The servers are net/http's: when
-- and with what error one stops is for the steps to choose. The time of the start and the two log
-- lines are left out.
pub mod Steps
pub mod Once
pub mod Result
pub mod Ends
pub mod Shutdown
pub mod Lifecycle
mod Tests
use yuna.Prelude.{
  ℕ, suc, String, Bool, true, false, Option, none, some, List, [], ◌∷◌, ◌++◌, ◌==◌, eqb,
  if◌then◌else◌,
}

pub data Which : Type 0 where
  operations main : Which

-- What ListenAndServe returns.
pub data ServeError : Type 0 where
  server_closed : ServeError
  failed : String → ServeError

abbrev pub Message : Type 0
Message = Which × ServeError

-- Where Start stands: before its first receive, before its second, or returned, with the message
-- that it wraps as its error, or with nil.
pub data Phase : Type 0 where
  first second : Phase
  done : Option Message → Phase

-- `errs` is the channel; a server is closed once its Close was called.
pub record Running : Type 0 where
  pub operations_running : Bool
  pub main_running : Bool
  pub operations_closed : Bool
  pub main_closed : Bool
  pub errs : List Message
  pub phase : Phase

-- The capacity of the channel.
abbrev pub capacity : ℕ
capacity = 2

unfoldable pub started : Running
started = record {
  operations_running = true;
  main_running = true;
  operations_closed = false;
  main_closed = false;
  errs = [];
  phase = first;
}

-- !errors.Is(err, http.ErrServerClosed)
abbrev pub is_failure : Message → Bool
is_failure (w, server_closed) = false
is_failure (w, failed e) = true

-- z.Close, which Start calls one server at a time.
unfoldable pub close : Running → Running
close s = record s { operations_closed = true; main_closed = true }

unfoldable pub receive_first : Message → Running → Running
unfolding close
receive_first m s =
    if is_failure m then record (close s) { phase = done (some m) } else record s { phase = second }

unfoldable pub receive_second : Message → Running → Running
receive_second m s = record s { phase = done (if is_failure m then some m else none) }

abbrev pub take_message : Phase → List Message → Running → Option Running
take_message (done o) ms s = none
take_message p [] s = none
take_message first (m ∷ ms) s = some (receive_first m (record s { errs = ms }))
take_message second (m ∷ ms) s = some (receive_second m (record s { errs = ms }))

-- What Start does next: nothing while the channel is empty, or once it has returned.
unfoldable pub receive : Running → Option Running
unfolding receive_first receive_second
receive s = take_message s.phase s.errs s

abbrev pub is_running : Which → Running → Bool
is_running operations s = s.operations_running
is_running main s = s.main_running

abbrev stopped : Which → Running → Running
stopped operations s = record s { operations_running = false }
stopped main s = record s { main_running = false }

-- A goroutine whose server has stopped, and that has sent the error.
unfoldable pub stop : Message → Running → Running
stop (w, e) s = stopped w (record s { errs = s.errs ++ (w, e) ∷ [] })
