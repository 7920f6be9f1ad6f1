-- ===== src/Health/Overall.antt =====
-- The overall status, described apart from the loop.
use mathlib.Core.List.{Permᴰ, append-nil, append_assoc}
use yuna.Prelude.{
  ℕ, String, Bool, true, false, not, ◌&&◌, ◌||◌, List, [], ◌∷◌, ◌++◌, map, ◌==◌, ◌≡◌, refl, ◌∙◌, ap,
  arith, eq_iff, any, if◌then◌else◌,
}
use yuna.Health.{
  HealthStatus, status_up, status_degraded, status_down, CheckResult, Component, absorb, collect,
  respond_with,
}

-- A critical component that is down.
abbrev pub is_fatal : CheckResult → Bool
is_fatal r = r.status == status_down && r.critical

-- A degraded component, or one that is down and not critical.
abbrev pub is_impaired : CheckResult → Bool
is_impaired r = r.status == status_degraded || (r.status == status_down && not r.critical)

-- DOWN if some critical component is down, else DEGRADED if some component is degraded or down, else
-- UP.
abbrev pub overall : List CheckResult → HealthStatus
overall rs =
    if any is_fatal rs
    then status_down
    else if any is_impaired rs
    then status_degraded
    else status_up

abbrev pub describe : CheckResult → Component
describe r = record { name = r.name; status = r.status; tags = r.tags }

-- The overall status so far, as what has been seen.
abbrev summary : Bool → Bool → HealthStatus
summary fatal impaired =
    if fatal then status_down else if impaired then status_degraded else status_up

pub any-perm {ℓ} : {A : Type ℓ} (p : A → Bool) {xs ys : List A} → Permᴰ xs ys → any p xs ≡ any p ys
any-perm p Permᴰ.nil = refl
any-perm p (Permᴰ.cons e r) = cc (ap p e, any-perm p r)
any-perm p (Permᴰ.swap {a} {b} {a'} {b'} {l} e f) = ground (arith, ap p e, ap p f)
any-perm p (Permᴰ.trans r s) = any-perm p r ∙ any-perm p s

-- A status is at most one of the three.
exclusive :
    (s : String)
    → ((s == status_up && s == status_down) ≡ false)
      × ((s == status_up && s == status_degraded) ≡ false)
      × ((s == status_degraded && s == status_down) ≡ false)
exclusive s = ground (
  arith,
  eq_iff s status_up,
  eq_iff s status_degraded,
  eq_iff s status_down,
  eq_iff status_up status_down,
  eq_iff status_degraded status_down,
  eq_iff status_up status_degraded,
)

-- By the fields of the result, so that every test of the switch is on a constant or on the status.
absorb-fields :
    (fatal impaired critical : Bool) (n s : String) (t : List String)
    → let r : CheckResult = record { name = n; critical = critical; status = s; tags = t } in
      absorb (summary fatal impaired) r ≡ summary (fatal || is_fatal r) (impaired || is_impaired r)
unfolding absorb
absorb-fields true true true n s t = ground (arith, exclusive s)
absorb-fields true true false n s t = ground (arith, exclusive s)
absorb-fields true false true n s t = ground (arith, exclusive s)
absorb-fields true false false n s t = ground (arith, exclusive s)
absorb-fields false true true n s t = ground (arith, exclusive s)
absorb-fields false true false n s t = ground (arith, exclusive s)
absorb-fields false false true n s t = ground (arith, exclusive s)
absorb-fields false false false n s t = ground (arith, exclusive s)

absorb-summary :
    (fatal impaired : Bool) (r : CheckResult)
    → absorb (summary fatal impaired) r ≡ summary (fatal || is_fatal r) (impaired || is_impaired r)
absorb-summary fatal impaired r = absorb-fields fatal impaired r.critical r.name r.status r.tags

or_false : (b : Bool) → (b || false) ≡ b
or_false true = refl
or_false false = refl

or_assoc : (a b c : Bool) → ((a || b) || c) ≡ (a || (b || c))
or_assoc true b c = refl
or_assoc false b c = refl

collect-summary :
    (rs : List CheckResult) (fatal impaired : Bool) (cs : List Component) (now : ℕ)
    → collect rs (record { status = summary fatal impaired; components = cs; timestamp = now })
      ≡ record {
        status = summary (fatal || any is_fatal rs) (impaired || any is_impaired rs);
        components = cs ++ map describe rs;
        timestamp = now;
      }
unfolding collect
collect-summary [] fatal impaired cs now = simp (or_false, append-nil)
collect-summary (r ∷ rs) fatal impaired cs now =
    simp (absorb-summary, collect-summary rs, or_assoc, append_assoc)

-- The response to the results in any order: the overall status is DOWN if some critical component is
-- down, else DEGRADED if some component is degraded or down, else UP; and each component is listed
-- once, as it was found, in the order in which the results came.
pub respond_with-overall :
    (now : ℕ) (rs : List CheckResult)
    → ((respond_with now rs).status ≡ overall rs)
      × ((respond_with now rs).components ≡ map describe rs)
      × ((respond_with now rs).timestamp ≡ now)
unfolding respond_with
respond_with-overall now rs = rw (collect-summary rs false false [] now) (refl, refl, refl)

-- The order of the results makes no difference to the overall status.
pub overall-perm : {rs ss : List CheckResult} → Permᴰ rs ss → overall rs ≡ overall ss
overall-perm p = rw (any-perm is_fatal p, any-perm is_impaired p) refl
