-- ===== src/Health/Pool.antt =====
-- The checks run concurrently: one goroutine for each component, a channel with room for a result of
-- each, and a wait group. What the scheduler may do is a step relation.
pub mod Complete
pub mod Hung
use yuna.Prelude.{ℕ, suc, ◌≡◌, List, [], ◌∷◌, ◌++◌, ◌<◌, length}
use yuna.Health.{ComponentRegistration, CheckResult, check}

pub record Pool : Type 0 where
  pub checking : List ComponentRegistration  -- the goroutines that have not sent
  pub sent : ℕ  -- the goroutines that have sent, and not yet called Done
  pub wait : ℕ  -- the counter of the wait group
  pub channel : List CheckResult
  pub capacity : ℕ

-- After the loop that starts the goroutines.
unfoldable pub start : List ComponentRegistration → Pool
start components = record {
  checking = components;
  sent = 0;
  wait = length components;
  channel = [];
  capacity = length components;
}

pub data Step (p q : Pool) : Type 0 where
  -- a goroutine, any of those still checking, sends its result: it blocks while the channel is full
  send :
      (before after : List ComponentRegistration) (c : ComponentRegistration)
      → p.checking ≡ before ++ c ∷ after
      → length p.channel < p.capacity
      → q ≡ record p {
        checking = before ++ after;
        sent = suc p.sent;
        channel = p.channel ++ check c ∷ [];
      }
      → Step p q
  -- a goroutine that has sent calls Done
  done :
      (sent wait : ℕ)
      → p.sent ≡ suc sent
      → p.wait ≡ suc wait
      → q ≡ record p { sent = sent; wait = wait }
      → Step p q

pub data Reach (p : Pool) : Pool → Type 0 where
  here : Reach p p
  next : {q r : Pool} → Reach p q → Step q r → Reach p r
