-- ===== src/Distributor/Slack/Grants.antt =====
-- What the absorbers are granted.
use native.Mathlib.Nat.{mul-le-mul_left, mul_comm, mul-add}
use pv_inverter_master.Base.{
  ℕ, ◌+◌, ◌-◌, ◌*◌, ◌≡◌, refl, ◌≤◌, ◌<◌, min, List, [], ◌∷◌, arith, ltb, ◌==◌, Bool-cases, inl, inr,
}
use pv_inverter_master.Throttle.{round_half_even}
use pv_inverter_master.Throttle.Score.{round_half_even-Close}
use pv_inverter_master.Distributor.Waterfall.{Target}
use pv_inverter_master.Distributor.Waterfall.Budget.{rated, power, devices, AllPowered, share_bound}
use pv_inverter_master.Distributor.Slack.{absorbed, raised_limit, grants}

-- Limits within 100 %.
abbrev pub AllWithin : List Target → Type 0
AllWithin [] = Unit
AllWithin (t ∷ ts) = (t.limit ≤ 1000) × AllWithin ts

-- The same devices, with limits that are as high or higher.
abbrev pub Raised : List Target → List Target → Type 0
Raised [] gs = Unit
Raised (t ∷ ts) [] = ⊥
Raised (t ∷ ts) (g ∷ gs) = (g.device ≡ t.device) × (t.limit ≤ g.limit) × Raised ts gs

raised_limit-close :
    (taken p l : ℕ)
    → 0 < p
    → 0 < taken
    → l * p + taken ≤ p * 1000
    → let q = min 1000 (round_half_even (l * p + taken) p) in
      (l ≤ q) × (2 * (p * q) ≤ 2 * (l * p + taken) + p)
raised_limit-close taken p l h t fits =
    let n : ℕ = l * p + taken in
    let q : ℕ = round_half_even n p in
    let c = round_half_even-Close n p h in
    let top = share_bound n p h fits in
    let kept : min 1000 q ≡ q = omega (arith, top) in
    rw kept (elim (Bool-cases (ltb q l)) [
      | inl under ↦
          let m = mul-le-mul_left {m = q + 1} {n = l} p (ground arith) in
          let e = mul-add p q 1 in
          let f = mul_comm l p in absurd (omega (arith, c.1, m, e, f, t, h))
      | inr fine ↦ (ground arith, c.0)
    ])

taken_of : (left : ℕ) (t : Target) → absorbed left t ≤ left
unfolding absorbed
taken_of left t = ground arith

fits_in :
    (left : ℕ) (t : Target)
    → t.limit * t.device.entry.rated_power ≤ t.device.entry.rated_power * 1000
    → t.limit * t.device.entry.rated_power + absorbed left t ≤ t.device.entry.rated_power * 1000
unfolding absorbed
fits_in left t h = ground arith

-- One grant: the limit does not fall, and grows by no more than what is taken, up to the rounding.
raised_limit_lem :
    (left : ℕ) (t : Target)
    → 0 < t.device.entry.rated_power
    → t.limit ≤ 1000
    → let p = t.device.entry.rated_power in
      let g = raised_limit (absorbed left t) t in
      (t.limit ≤ g) × (g ≤ 1000) × (2 * (p * g) ≤ 2 * (p * t.limit + absorbed left t) + p)
unfolding raised_limit
raised_limit_lem left t h w =
    let p : ℕ = t.device.entry.rated_power in
    let e = mul_comm t.limit p in
    let m = mul-le-mul_left {m = t.limit} {n = 1000} p w in
    let fits = fits_in left t (omega (arith, e, m)) in
    elim (Bool-cases (absorbed left t == 0)) [
      | inl nothing ↦ rw nothing (omega arith, w, ground arith)
      | inr something ↦
          let c = raised_limit-close (absorbed left t) p t.limit h (ground arith) fits in
          rw something (c.0, omega arith, omega (arith, c.1, e))
    ]

-- However much slack there is to give, no absorber's limit falls or passes 100 %, and all of them
-- together are granted no more than the slack, up to the rounding of the limits.
pub grants-Raised :
    (left : ℕ) (ts : List Target)
    → AllPowered (devices ts)
    → AllWithin ts
    → Raised ts (grants left ts)
      × AllWithin (grants left ts)
      × (2 * power (grants left ts) ≤ 2 * (power ts + left) + rated (devices ts))
unfolding grants
grants-Raised left [] h w = (tt, tt, omega arith)
grants-Raised left (t ∷ ts) h w =
    let one = raised_limit_lem left t h.0 w.0 in
    let rest = grants-Raised (left - absorbed left t) ts h.1 w.1 in
    let within = taken_of left t in
    ((refl, one.0, rest.0), (one.1, rest.1), omega (arith, one.2, rest.2, within))
