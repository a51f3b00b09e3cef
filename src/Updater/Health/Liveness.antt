-- ===== src/Updater/Health/Liveness.antt =====
-- When the health check succeeds.
use mathlib.Core.Path.{subst}
use pv_inverter_master.Base.{
  ℕ, zero, suc, ◌+◌, ◌-◌, ◌≡◌, refl, ◌≤◌, ◌<◌, String, true, false, ◌&&◌, Option, none, some, arith,
  leb, Bool-cases, inl, inr,
}
use pv_inverter_master.Updater.Health.{
  HealthCheckConfig, HealthCheckOutcome, Round, Progress, Verdict, ended, going, probe, top, start,
  loop, wait_for_healthy,
}
use pv_inverter_master.Updater.Health.Stable.{is_good}
use pv_inverter_master.Updater.Health.Probes.{
  is_tolerated, Since, GoesOn, GrowsTo, probe-GoesOn, probe-GrowsTo,
}

module _ (c : HealthCheckConfig) (expected : Option String) (t0 : ℕ) where
  -- A success; and nothing but a success.
  Passes : Option HealthCheckOutcome → Type 0
  Passes none = ⊥
  Passes (some o) = o.success ≡ true

  NoFailure : Option HealthCheckOutcome → Type 0
  NoFailure none = Unit
  NoFailure (some o) = o.success ≡ true

  top-NoFailure :
      (r : Round) (p : Progress) → r.now - t0 < c.hard_timeout → NoFailure (top c t0 r p)
  unfolding top NoFailure
  top-NoFailure r p early =
      let under : leb c.hard_timeout (r.now - t0) ≡ false = ground arith in
      elim (Bool-cases (leb c.consecutive_ok_required p.consecutive_ok && r.flag)) [
        | inl stable ↦ rw stable refl
        | inr not_yet ↦ rw (not_yet, under) tt
      ]

  decide :
      (t rest : Option HealthCheckOutcome)
      → NoFailure t
      → Passes rest
      → Passes (elim t [ some o ↦ some o | none ↦ rest ])
  unfolding NoFailure Passes
  decide none rest h k = k
  decide (some o) rest h k = h

  at_once :
      (t rest : Option HealthCheckOutcome)
      → Passes t
      → Passes (elim t [ some o ↦ some o | none ↦ rest ])
  unfolding Passes
  at_once none rest h = absurd h
  at_once (some o) rest h = h

  top-Passes :
      (r : Round) (p : Progress)
      → c.consecutive_ok_required ≤ p.consecutive_ok
      → r.flag ≡ true
      → Passes (top c t0 r p)
  unfolding top Passes
  top-Passes r p enough flagged =
      let counted : leb c.consecutive_ok_required p.consecutive_ok ≡ true = ground arith in
      rw (counted, flagged) refl

  module _ (rounds : ℕ → Round) where
    grown :
        (f i n : ℕ) (v : Verdict)
        → GrowsTo c expected t0 n v
        → ((p : Progress) → p.consecutive_ok ≡ n → Passes (loop c expected t0 rounds f (suc i) p))
        → Passes (elim v [ ended o ↦ some o | going p ↦ loop c expected t0 rounds f (suc i) p ])
    grown f i n (ended o) h k = absurd h
    grown f i n (going p) h k = k p h

    gone_on :
        (f i : ℕ) (v : Verdict)
        → GoesOn t0 v
        → ((p : Progress)
            → Since t0 p.first_degraded_at
            → Passes (loop c expected t0 rounds f (suc i) p))
        → Passes (elim v [ ended o ↦ some o | going p ↦ loop c expected t0 rounds f (suc i) p ])
    gone_on f i (ended o) h k = absurd h
    gone_on f i (going p) h k = k p h

    -- Rounds `i` to `n` come before the hard timeout.
    abbrev pub InTime : ℕ → Type 0
    InTime n = (j : ℕ) → j < n → (rounds j).now - t0 < c.hard_timeout

    abbrev pub Healthy : ℕ → ℕ → Type 0
    Healthy k n = (j : ℕ) → k ≤ j → j < n → is_good expected (rounds j) ≡ true

    -- Before round `k` the unit is active and nothing names another version, for less than the degraded
    -- timeout.
    abbrev pub Warming : ℕ → Type 0
    Warming k =
        (j : ℕ)
        → j < k
        → (is_tolerated expected (rounds j) ≡ true)
          × (t0 ≤ (rounds j).now)
          × ((rounds j).now - t0 < c.degraded_timeout)

    healthy-Passes :
        (m k i n : ℕ) (p : Progress)
        → n ≡ i + m
        → k ≤ i
        → c.consecutive_ok_required ≤ p.consecutive_ok + m
        → Healthy k n
        → InTime n
        → (rounds n).flag ≡ true
        → Passes (loop c expected t0 rounds (suc m) i p)
    unfolding loop
    healthy-Passes zero k i n p e le enough well in_time flagged =
        let here : n ≡ i = omega (arith, e) in
        at_once (top c t0 (rounds i) p) _ (
          top-Passes (rounds i) p (omega (arith, enough))
            (subst (λ j. (rounds j).flag ≡ true) here flagged))
    healthy-Passes (suc m) k i n p e le enough well in_time flagged =
        decide (top c t0 (rounds i) p) _ (top-NoFailure (rounds i) p (in_time i (omega (arith, e))))
          (grown (suc m) i (suc p.consecutive_ok) (probe c expected (rounds i) p)
            (probe-GrowsTo c expected t0 (rounds i) p (well i le (omega (arith, e))))
            (λ p' g.
              healthy-Passes m k (suc i) n p' (omega (arith, e)) (omega (arith, le))
                (omega (arith, enough, g)) well in_time flagged))

    warming-Passes :
        (w g k i n : ℕ) (p : Progress)
        → k ≡ i + w
        → g ≡ w + c.consecutive_ok_required
        → n ≡ i + g
        → Since t0 p.first_degraded_at
        → Warming k
        → Healthy k n
        → InTime n
        → (rounds n).flag ≡ true
        → Passes (loop c expected t0 rounds (suc g) i p)
    unfolding loop
    warming-Passes zero g k i n p e f end s warm well in_time flagged =
        healthy-Passes g k i n p end (omega (arith, e)) (omega (arith, f)) well in_time flagged
    warming-Passes (suc w) zero k i n p e f end s warm well in_time flagged =
        absurd (omega (arith, f))
    warming-Passes (suc w) (suc g) k i n p e f end s warm well in_time flagged =
        let here = warm i (omega (arith, e)) in
        decide (top c t0 (rounds i) p) _
          (top-NoFailure (rounds i) p (in_time i (omega (arith, end))))
          (gone_on (suc g) i (probe c expected (rounds i) p)
            (probe-GoesOn c expected t0 (rounds i) p here.0 s here.1 here.2)
            (λ p' s'.
              warming-Passes w g k (suc i) n p' (omega (arith, e)) (omega (arith, f))
                (omega (arith, end)) s' warm well in_time flagged))

    outcome_of :
        (r : Option HealthCheckOutcome)
        → Passes r
        → (o : HealthCheckOutcome) × (r ≡ some o) × (o.success ≡ true)
    unfolding Passes
    outcome_of none h = absurd h
    outcome_of (some o) h = (o, refl, h)

    -- A release that comes up in time passes: for `k` rounds the unit is active and no reply names another
    -- version, whatever else goes wrong, for less than the degraded timeout; then the required
    -- number of rounds is good, all of this before the hard timeout; and the flag file is there.
    pub release_passes :
        (k : ℕ)
        → let n = k + c.consecutive_ok_required in
          Warming k
          → Healthy k n
          → InTime n
          → (rounds n).flag ≡ true
          → (o : HealthCheckOutcome) × (wait_for_healthy c expected t0 rounds (suc n) ≡ some o)
            × (o.success ≡ true)
    unfolding wait_for_healthy
    release_passes k warm well in_time flagged =
        let n : ℕ = k + c.consecutive_ok_required in
        outcome_of (loop c expected t0 rounds (suc n) 0 start) (
          warming-Passes k n k 0 n start (omega arith) refl (omega arith) tt warm well in_time
            flagged)
