-- ===== src/Health/Pool/Complete.antt =====
-- Every schedule ends, and ends with the result of every component.
use mathlib.Core.List.Permᴰ
use mathlib.Core.List.{Permᴰ, append-nil, append_assoc, map-append}
use yuna.Prelude.{
  ℕ, zero, suc, ◌+◌, ◌*◌, ◌<◌, ◌≤◌, List, [], ◌∷◌, ◌++◌, ◌≡◌, ◌≢◌, refl, ap, arith, length, map,
  length-append, ◌⊎◌, inl, inr,
}
use yuna.Health.{ComponentRegistration, CheckResult, check}
use yuna.Health.Pool.{Pool, start, Step, send, done, Reach, here, next}

-- What holds between two steps, for the components that the pool was started with.
record Inv (components : List ComponentRegistration) (p : Pool) : Type 0 where
  counted : p.wait ≡ length p.checking + p.sent
  room : length p.channel + length p.checking ≡ p.capacity
  results : Permᴰ (p.channel ++ map check p.checking) (map check components)

start-Inv : (components : List ComponentRegistration) → Inv components (start components)
unfolding start
start-Inv cs = record { counted = omega arith; room = omega arith; results = Permᴰ.refl _ }

send-results :
    (channel : List CheckResult) (before after checking : List ComponentRegistration)
    (c : ComponentRegistration) (all : List CheckResult)
    → checking ≡ before ++ c ∷ after
    → Permᴰ (channel ++ map check checking) all
    → Permᴰ ((channel ++ check c ∷ []) ++ map check (before ++ after)) all
send-results channel before after checking c all e r =
    let mb = map check before in
    let ma = map check after in
    let moved : Permᴰ (channel ++ (check c ∷ (mb ++ ma))) (channel ++ (mb ++ (check c ∷ ma))) =
      Permᴰ.append_left channel (Permᴰ.symm (Permᴰ.middle (check c) mb ma)) in
    let whole : Permᴰ (channel ++ (mb ++ (check c ∷ ma))) all = rw (e, map-append) at r in
    rw (append_assoc, map-append) (Permᴰ.trans moved whole)

Step-Inv : (cs : List ComponentRegistration) (p q : Pool) → Step p q → Inv cs p → Inv cs q
Step-Inv cs p q (send before after c e h s) v = record {
  counted = rw s (
      omega (
        arith,
        v.counted,
        ap length e,
        length-append before (c ∷ after),
        length-append before after,
      ));
  room = rw s (
      omega (
        arith,
        v.room,
        ap length e,
        length-append before (c ∷ after),
        length-append before after,
        length-append p.channel (check c ∷ []),
      ));
  results = rw s (send-results p.channel before after p.checking c _ e v.results);
}
Step-Inv cs p q (done n w e f s) v = record {
  counted = ground arith;
  room = ground arith;
  results = rw s v.results;
}

Reach-Inv : (cs : List ComponentRegistration) {p q : Pool} → Reach p q → Inv cs p → Inv cs q
Reach-Inv cs here v = v
Reach-Inv cs (next r st) v = Step-Inv cs _ _ st (Reach-Inv cs r v)

-- Every step makes this smaller.
abbrev pub steps_left : Pool → ℕ
steps_left p = 2 * length p.checking + p.sent

Step-lt : (p q : Pool) → Step p q → steps_left q < steps_left p
Step-lt p q (send before after c e h s) =
    rw s (omega (arith, ap length e, length-append before (c ∷ after), length-append before after))
Step-lt p q (done n w e f s) = rw s (omega arith)

-- The number of steps of a schedule.
abbrev pub steps : {p q : Pool} → Reach p q → ℕ
steps here = 0
steps (next r st) = suc (steps r)

steps-le : {p q : Pool} (r : Reach p q) → steps r + steps_left q ≤ steps_left p
steps-le here = omega arith
steps-le (next {q} {r} reach st) = omega (arith, steps-le reach, Step-lt q r st)

nil_of_length {ℓ} : {A : Type ℓ} (xs : List A) → length xs ≡ 0 → xs ≡ []
nil_of_length [] e = refl
nil_of_length (x ∷ xs) e = absurd (omega arith)

can_step_by :
    (cs : List ComponentRegistration) (p : Pool) (checking : List ComponentRegistration) (sent : ℕ)
    → Inv cs p
    → p.wait ≢ 0
    → p.checking ≡ checking
    → p.sent ≡ sent
    → (q : Pool) × Step p q
can_step_by cs p (c ∷ after) sent v n e f =
    (_, send [] after c e (omega (arith, v.room, ap length e)) refl)
can_step_by cs p [] (suc sent) v n e f =
    let counted : p.wait ≡ suc sent = omega (arith, v.counted, ap length e) in
    (_, done sent sent f counted refl)
can_step_by cs p [] zero v n e f = absurd (n (omega (arith, v.counted, ap length e)))

progress :
    (cs : List ComponentRegistration) (p : Pool) (wait : ℕ)
    → p.wait ≡ wait
    → Inv cs p
    → ((p.wait ≡ 0) × Permᴰ p.channel (map check cs)) ⊎ ((q : Pool) × Step p q)
progress cs p zero e v =
    let empty = nil_of_length p.checking (omega (arith, v.counted)) in
    inl (e, (rw (empty, append-nil) at v.results))
progress cs p (suc n) e v = inr (can_step_by cs p p.checking p.sent v (λ z. omega arith) refl refl)

-- However the checks are scheduled: a schedule takes at most two steps for each component; and
-- either the wait group is down to zero, and the channel holds the result of every component exactly
-- once, or some goroutine can go on, so that a full channel blocks none of them for good.
pub checks_complete :
    (cs : List ComponentRegistration) (p : Pool) (r : Reach (start cs) p)
    → (steps r ≤ 2 * length cs)
      × (((p.wait ≡ 0) × Permᴰ p.channel (map check cs)) ⊎ ((q : Pool) × Step p q))
unfolding start
checks_complete cs p r =
    (omega (arith, steps-le r), progress cs p p.wait refl (Reach-Inv cs r (start-Inv cs)))

pub results_of_done :
    (cs : List ComponentRegistration) (p : Pool)
    → Reach (start cs) p
    → p.wait ≡ 0
    → Permᴰ p.channel (map check cs)
unfolding start
results_of_done cs p r z =
    let v = Reach-Inv cs r (start-Inv cs) in
    let empty = nil_of_length p.checking (omega (arith, v.counted)) in
    (rw (empty, append-nil) at v.results)
