-- ===== src/Distributor/Waterfall/Budget.antt =====
-- What the waterfall gives to the devices, against the budget.
use mathlib.Core.List.Perm
use mathlib.Core.List.{Perm}
use native.Mathlib.Nat.{mul-le-mul_left, mul_comm}
use pv_inverter_master.Base.{
  ℕ, ◌+◌, ◌-◌, ◌*◌, ◌≡◌, refl, ap, ◌∙◌, ◌≤◌, ◌<◌, min, false, List, [], ◌∷◌, arith, ltb, ◌==◌,
  Bool-cases, inl, inr,
}
use pv_inverter_master.Throttle.{round_half_even}
use pv_inverter_master.Throttle.Score.{round_half_even-Close}
use pv_inverter_master.Distributor.Device.{Device, is_throttle_eligible}
use pv_inverter_master.Distributor.Waterfall.{
  place, sorted, eligible, Target, before, budget, limit_of, allot, waterfall,
}
use pv_inverter_master.Distributor.Waterfall.Sorted.{IsSorted, sorted-IsSorted}

-- The rated watts of some devices.
abbrev pub rated : List Device → ℕ
rated [] = 0
rated (d ∷ ds) = d.entry.rated_power + rated ds

-- The milliwatts that the targets allow: a tenth of a percent of a watt is a milliwatt.
abbrev pub power : List Target → ℕ
power [] = 0
power (t ∷ ts) = t.device.entry.rated_power * t.limit + power ts

abbrev pub devices : List Target → List Device
devices [] = []
devices (t ∷ ts) = t.device ∷ devices ts

abbrev pub AllPowered : List Device → Type 0
AllPowered [] = Unit
AllPowered (d ∷ ds) = (0 < d.entry.rated_power) × AllPowered ds

-- The rounded limit of a share `b` of the rated milliwatts is at most 100 %.
pub share_bound : (b p : ℕ) → 0 < p → b ≤ p * 1000 → round_half_even b p ≤ 1000
share_bound b p h le = elim (Bool-cases (ltb 1000 (round_half_even b p))) [
  | inl over ↦
      let c = round_half_even-Close b p h in
      let m = mul-le-mul_left {m = 1001} {n = round_half_even b p} p (ground arith) in
      absurd (omega (arith, c.0, m))
  | inr fine ↦ ground arith
]

share_full : (p : ℕ) → 0 < p → round_half_even (p * 1000) p ≡ 1000
share_full p h =
    let q : ℕ = round_half_even (p * 1000) p in
    let top = share_bound (p * 1000) p h (omega arith) in
    elim (Bool-cases (ltb q 1000)) [
      | inl under ↦
          let c = round_half_even-Close (p * 1000) p h in
          let m = mul-le-mul_left {m = q} {n = 999} p (ground arith) in
          absurd (omega (arith, c.1, m))
      | inr fine ↦ ground (arith, top)
    ]

-- The milliwatts that one device's limit allows are close to its budget.
limit_of-close :
    (remaining : ℕ) (d : Device)
    → 0 < d.entry.rated_power
    → let p = d.entry.rated_power in
      (2 * (p * limit_of remaining d) ≤ 2 * budget remaining d + p)
      × (2 * budget remaining d ≤ 2 * (p * limit_of remaining d) + p)
unfolding limit_of
limit_of-close remaining d h =
    let p : ℕ = d.entry.rated_power in
    let c = round_half_even-Close (budget remaining d) p h in
    let top = share_bound (budget remaining d) p h (omega arith) in
    elim (Bool-cases (remaining == 0)) [
      | inl none_left ↦ rw none_left (omega (arith, mul_comm p 0), ground arith)
      | inr some_left ↦
          let kept : min 1000 (round_half_even (budget remaining d) p)
              ≡ round_half_even (budget remaining d) p =
            omega (arith, top) in
          rw (some_left, kept) c
    ]

allot-close :
    (remaining : ℕ) (ds : List Device)
    → AllPowered ds
    → (2 * power (allot remaining ds) ≤ 2 * min remaining (1000 * rated ds) + rated ds)
      × (2 * min remaining (1000 * rated ds) ≤ 2 * power (allot remaining ds) + rated ds)
unfolding allot
allot-close remaining [] h = (omega arith, omega arith)
allot-close remaining (d ∷ ds) h =
    let one = limit_of-close remaining d h.0 in
    let rest = allot-close (remaining - budget remaining d) ds h.1 in
    (omega (arith, one, rest), omega (arith, one, rest))

devices-allot : (remaining : ℕ) (ds : List Device) → devices (allot remaining ds) ≡ ds
unfolding allot
devices-allot remaining [] = refl
devices-allot remaining (d ∷ ds) =
    ap (λ es. d ∷ es) (devices-allot (remaining - budget remaining d) ds)

-- A device that is limited below 100 % leaves nothing to those behind it.
abbrev pub AllZero : List Target → Type 0
AllZero [] = Unit
AllZero (t ∷ ts) = (t.limit ≡ 0) × AllZero ts

abbrev pub Protects : List Target → Type 0
Protects [] = Unit
Protects (t ∷ ts) = (t.limit < 1000 → AllZero ts) × Protects ts

allot-AllZero : (ds : List Device) → AllZero (allot 0 ds)
unfolding allot limit_of
allot-AllZero [] = tt
allot-AllZero (d ∷ ds) = let e : 0 - budget 0 d ≡ 0 = omega arith in (refl, rw e (allot-AllZero ds))

limited_takes_all :
    (remaining : ℕ) (d : Device)
    → 0 < d.entry.rated_power
    → limit_of remaining d < 1000
    → remaining - budget remaining d ≡ 0
unfolding limit_of
limited_takes_all remaining d h below =
    elim (Bool-cases (ltb (d.entry.rated_power * 1000) remaining)) [
      | inl more ↦
          let p : ℕ = d.entry.rated_power in
          let all : budget remaining d ≡ p * 1000 = ground arith in
          let full : round_half_even (budget remaining d) p ≡ 1000 =
            ap (λ b. round_half_even b p) all ∙ share_full p h in
          let some_left : (remaining == 0) ≡ false = ground arith in
          let e : limit_of remaining d ≡ 1000 = rw (some_left, full) in absurd (omega (arith, e))
      | inr fits ↦ ground arith
    ]

allot-Protects : (remaining : ℕ) (ds : List Device) → AllPowered ds → Protects (allot remaining ds)
unfolding allot
allot-Protects remaining [] h = tt
allot-Protects remaining (d ∷ ds) h = (
  λ below. rw (limited_takes_all remaining d h.0 below) (allot-AllZero ds),
  allot-Protects (remaining - budget remaining d) ds h.1,
)

place-AllPowered :
    (d : Device) (ds : List Device)
    → 0 < d.entry.rated_power
    → AllPowered ds
    → AllPowered (place d ds)
unfolding place
place-AllPowered d [] h k = (h, tt)
place-AllPowered d (e ∷ es) h k = ground (arith, place-AllPowered d es h k.1)

sorted-AllPowered : (ds : List Device) → AllPowered ds → AllPowered (sorted ds)
unfolding sorted
sorted-AllPowered [] h = tt
sorted-AllPowered (d ∷ ds) h = place-AllPowered d (sorted ds) h.0 (sorted-AllPowered ds h.1)

eligible-AllPowered : (now : ℕ) (ds : List Device) → AllPowered (eligible now ds)
unfolding eligible is_throttle_eligible
eligible-AllPowered now [] = tt
eligible-AllPowered now (d ∷ ds) = ground (arith, eligible-AllPowered now ds)

place-rated : (d : Device) (ds : List Device) → rated (place d ds) ≡ d.entry.rated_power + rated ds
unfolding place
place-rated d [] = refl
place-rated d (e ∷ es) = ground (arith, place-rated d es)

sorted-rated : (ds : List Device) → rated (sorted ds) ≡ rated ds
unfolding sorted
sorted-rated [] = refl
sorted-rated (d ∷ ds) = omega (arith, place-rated d (sorted ds), sorted-rated ds)

place-Perm : (d : Device) (ds : List Device) → Perm (place d ds) (d ∷ ds)
unfolding place
place-Perm d [] = Perm.rfl
place-Perm d (e ∷ es) = elim (Bool-cases (before e d)) [
  | inl first ↦ rw first (Perm.trans (Perm.cons e (place-Perm d es)) (Perm.swap d e es))
  | inr behind ↦ rw behind Perm.rfl
]

sorted-Perm : (ds : List Device) → Perm (sorted ds) ds
unfolding sorted
sorted-Perm [] = Perm.rfl
sorted-Perm (d ∷ ds) = Perm.trans (place-Perm d (sorted ds)) (Perm.cons d (sorted-Perm ds))

-- The waterfall hands out the whole budget, or the rated power of all eligible devices if that is less,
-- up to the rounding of the limits: the two differ by at most half a tenth of a percent of that
-- rated power.
pub waterfall_spends :
    (now allowed : ℕ) (ds : List Device)
    → let spent = power (waterfall now allowed ds) in
      let total = rated (eligible now ds) in
      (2 * spent ≤ 2 * min allowed (1000 * total) + total)
      × (2 * min allowed (1000 * total) ≤ 2 * spent + total)
unfolding waterfall
waterfall_spends now allowed ds =
    let same = sorted-rated (eligible now ds) in
    let close =
      allot-close allowed (sorted (eligible now ds))
        (sorted-AllPowered (eligible now ds) (eligible-AllPowered now ds)) in
    (omega (arith, close, same), omega (arith, close, same))

-- Each eligible device has exactly one target. The targets are in the order of score, rated power and
-- id, and a device that is limited below 100 % leaves nothing to those behind it.
pub waterfall-Protects :
    (now allowed : ℕ) (ds : List Device)
    → let ts = waterfall now allowed ds in
      Perm (devices ts) (eligible now ds) × IsSorted (devices ts) × Protects ts
unfolding waterfall
waterfall-Protects now allowed ds =
    let es : List Device = sorted (eligible now ds) in
    let same : devices (allot allowed es) ≡ es = devices-allot allowed es in
    (
      rw same (sorted-Perm (eligible now ds)),
      rw same (sorted-IsSorted (eligible now ds)),
      allot-Protects allowed es (sorted-AllPowered (eligible now ds) (eligible-AllPowered now ds)),
    )
