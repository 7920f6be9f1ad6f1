-- ===== src/Middleware/RequestLog/Raced/Lost.antt =====
-- What an interleaving of two requests can lose.
use mathlib.Core.Path.{subst}
use yuna.Prelude.{ℕ, false, some, List, [], ◌∷◌, ◌≡◌, refl, ap, arith, eqb, sym}
use yuna.Log.Level.{Attr}
use yuna.Log.Logger.{Logger, with_attrs}
use yuna.Middleware.RequestLog.Raced.{
  Serving, Access, reads, writes, hands_over, arrived, Shared, set_at, Raced, begin, next, Alone,
  here, access_then, added_then,
}

module _ (attrs : ℕ → List Attr) (l : Logger) where
  -- A state in which the variable, request `i` and request `j` are as given.
  record IsAt (i j : ℕ) (m : Logger) (u v : Serving) : Type 0 where
    state : Shared
    raced : Raced attrs l state
    logger : state.logger ≡ m
    at_i : state.requests i ≡ u
    at_j : state.requests j ≡ v

  step_i :
      (i j : ℕ) {m n : Logger} {u v w : Serving}
      → eqb i j ≡ false
      → IsAt i j m u v
      → Access m u n w
      → IsAt i j n w v
  step_i i j {m} {n} {u} {v} {w} ne h a = record {
    state = record { logger = n; requests = set_at i w h.state.requests };
    raced = next h.raced i (
        subst (λ x. Access x (h.state.requests i) n w) (sym h.logger)
          (subst (λ y. Access m y n w) (sym h.at_i) a));
    logger = refl;
    at_i = ground arith;
    at_j = rw ne h.at_j;
  }

  swapped : (i j : ℕ) {m : Logger} {u v : Serving} → IsAt i j m u v → IsAt j i m v u
  swapped i j h = record {
    state = h.state;
    raced = h.raced;
    logger = h.logger;
    at_i = h.at_j;
    at_j = h.at_i;
  }

  run_i :
      (i j : ℕ) {m n : Logger} {u v w : Serving}
      → eqb i j ≡ false
      → IsAt i j m u v
      → Alone m u n w
      → IsAt i j n w v
  run_i i j ne h here = h
  run_i i j ne h (access_then a rest) = run_i i j ne (step_i i j ne h a) rest

  -- An update of the variable can be lost: whatever two requests add, the handler of one can be given
  -- a logger that has nothing of its own request, and the first attribute of the other one.
  pub race_loses_attributes :
      (i j : ℕ) (b : Attr) (bs : List Attr)
      → eqb i j ≡ false
      → attrs j ≡ b ∷ bs
      → (s : Shared) × Raced attrs l s × ((s.requests i).given ≡ some (with_attrs (b ∷ []) l))
  race_loses_attributes i j b bs ne e =
      let start : IsAt j i l (arrived (b ∷ bs)) (arrived (attrs i)) = record {
        state = _;
        raced = begin;
        logger = refl;
        at_i = ap arrived e;
        at_j = refl;
      } in
      let back : eqb j i ≡ false = ground (arith, ne) in
      let made = swapped j i (step_i j i back start reads) in
      let ran = swapped i j (run_i i j ne made (added_then (attrs i) l here)) in
      let wrote = swapped j i (step_i j i back ran writes) in
      let end = step_i i j ne wrote hands_over in (end.state, end.raced, ap (λ v. v.given) end.at_i)
