-- ===== src/Health/Pool/Hung.antt =====
-- A check that does not return: the timeout of a component only ends the context that its checker is
-- given, and the handler waits for every goroutine.
use yuna.Prelude.{
  Bool, true, false, List, [], ◌∷◌, ◌+◌, ◌≡◌, ◌≢◌, ◌<◌, ap, arith, any, any-append, length,
  length-append,
}
use yuna.Health.{ComponentRegistration}
use yuna.Health.Pool.{Pool, start, Step, send, done}

module _ (hangs : ComponentRegistration → Bool) where
  -- The step is not the send of a check that hangs.
  abbrev pub IsPossible : {p q : Pool} → Step p q → Type 0
  IsPossible (send before after c e h s) = hangs c ≡ false
  IsPossible (done n w e f s) = Unit

  pub data Schedule (p : Pool) : Pool → Type 0 where
    here : Schedule p p
    next : {q r : Pool} → Schedule p q → (s : Step q r) → IsPossible s → Schedule p r

  -- A hanging check is still to come, and the wait group counts it.
  record Waits (p : Pool) : Type 0 where
    hung : any hangs p.checking ≡ true
    counted : p.wait ≡ length p.checking + p.sent

  Step-Waits : (p q : Pool) (s : Step p q) → IsPossible s → Waits p → Waits q
  Step-Waits p q (send before after c e h s) i v = record {
    hung = rw s (
        ground (
          arith,
          i,
          v.hung,
          ap (any hangs) e,
          any-append hangs before (c ∷ after),
          any-append hangs before after,
        ));
    counted = rw s (
        omega (
          arith,
          v.counted,
          ap length e,
          length-append before (c ∷ after),
          length-append before after,
        ));
  }
  Step-Waits p q (done n w e f s) i v = record {
    hung = rw s v.hung;
    counted = rw s (omega (arith, v.counted, e, f));
  }

  Schedule-Waits :
      (cs : List ComponentRegistration) (p : Pool)
      → any hangs cs ≡ true
      → Schedule (start cs) p
      → Waits p
  unfolding start
  Schedule-Waits cs p h here = record { hung = h; counted = omega arith }
  Schedule-Waits cs p h (next {q = q} r s i) = Step-Waits q p s i (Schedule-Waits cs q h r)

  some_left : (cs : List ComponentRegistration) → any hangs cs ≡ true → 0 < length cs
  some_left [] h = cc
  some_left (c ∷ cs) h = omega arith

  -- Where some registered check never returns, whatever its timeout, the handler never gets past the
  -- wait group: it is not down to zero in any schedule of the other checks, so that the endpoint
  -- does not answer.
  pub ready_blocks :
      (cs : List ComponentRegistration) (p : Pool)
      → any hangs cs ≡ true
      → Schedule (start cs) p
      → p.wait ≢ 0
  ready_blocks cs p h r z =
      let v = Schedule-Waits cs p h r in
      absurd (omega (arith, z, v.counted, some_left p.checking v.hung))
