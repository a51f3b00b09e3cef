-- ===== src/Distributor/Distribute/Plan.antt =====
-- The targets that a global limit gives: for whom, and how large.
use pv_inverter_master.Base.{
  ℕ, ◌-◌, ◌≡◌, refl, ◌⊎◌, inl, inr, ◌≤◌, String, Option, List, [], ◌∷◌, arith, ltb, Bool-cases,
  str_eq, All, All-mono,
}
use pv_inverter_master.Distributor.Device.{Device}
use pv_inverter_master.Distributor.Waterfall.{
  Target, budget, limit_of, allot, eligible, place, sorted, before, waterfall,
}
use pv_inverter_master.Distributor.Slack.{
  absorbed, absorbs, absorbers, grants, place_absorber, raised_limit, reclaim_slack, replace_all,
  replace_target, slack, takes_first,
}
use pv_inverter_master.Distributor.Distribute.{Surroundings, plan, waterfall_budget}

-- One of the devices has the id.
abbrev pub HasId : String → List Device → Type 0
HasId id [] = ⊥
HasId id (d ∷ ds) = (d.device_id ≡ id) ⊎ HasId id ds

-- A target within 100 % for one of the devices.
abbrev pub Fits : List Device → Target → Type 0
Fits es t = HasId t.device.device_id es × (t.limit ≤ 1000)

abbrev Within : List Device → Device → Type 0
Within es d = HasId d.device_id es

place-All :
    (P : Device → Type 0) (d : Device) (ds : List Device) → P d → All P ds → All P (place d ds)
unfolding place
place-All P d [] h k = (h, tt)
place-All P d (e ∷ es) h k = elim (Bool-cases (before e d)) [
  | inl first ↦ rw first (k.0, place-All P d es h k.1)
  | inr behind ↦ rw behind (h, k)
]

sorted-All : (P : Device → Type 0) (ds : List Device) → All P ds → All P (sorted ds)
unfolding sorted
sorted-All P [] h = tt
sorted-All P (d ∷ ds) h = place-All P d (sorted ds) h.0 (sorted-All P ds h.1)

ids_of_self : (ds : List Device) → All (Within ds) ds
ids_of_self [] = tt
ids_of_self (d ∷ ds) =
    (inl refl, All-mono (Within ds) (Within (d ∷ ds)) ds (λ e h. inr h) (ids_of_self ds))

limit_of-bound : (remaining : ℕ) (d : Device) → limit_of remaining d ≤ 1000
unfolding limit_of
limit_of-bound remaining d = ground arith

allot-Fits :
    (es : List Device) (remaining : ℕ) (ds : List Device)
    → All (Within es) ds
    → All (Fits es) (allot remaining ds)
unfolding allot
allot-Fits es remaining [] h = tt
allot-Fits es remaining (d ∷ ds) h =
    ((h.0, limit_of-bound remaining d), allot-Fits es (remaining - budget remaining d) ds h.1)

waterfall-Fits :
    (now allowed : ℕ) (ds : List Device) → All (Fits (eligible now ds)) (waterfall now allowed ds)
unfolding waterfall
waterfall-Fits now allowed ds =
    let es : List Device = eligible now ds in
    allot-Fits es allowed (sorted es) (sorted-All (Within es) es (ids_of_self es))

place_absorber-All :
    (P : Target → Type 0) (t : Target) (ts : List Target)
    → P t
    → All P ts
    → All P (place_absorber t ts)
unfolding place_absorber
place_absorber-All P t [] h k = (h, tt)
place_absorber-All P t (u ∷ us) h k = elim (Bool-cases (takes_first u t)) [
  | inl first ↦ rw first (k.0, place_absorber-All P t us h k.1)
  | inr behind ↦ rw behind (h, k)
]

absorbers-All : (P : Target → Type 0) (ts : List Target) → All P ts → All P (absorbers ts)
unfolding absorbers
absorbers-All P [] h = tt
absorbers-All P (t ∷ ts) h = elim (Bool-cases (absorbs t)) [
  | inl in_pool ↦ rw in_pool (place_absorber-All P t (absorbers ts) h.0 (absorbers-All P ts h.1))
  | inr out ↦ rw out (absorbers-All P ts h.1)
]

raised_limit-bound : (taken : ℕ) (t : Target) → t.limit ≤ 1000 → raised_limit taken t ≤ 1000
unfolding raised_limit
raised_limit-bound taken t h = ground arith

grants-Fits :
    (es : List Device) (left : ℕ) (ts : List Target)
    → All (Fits es) ts
    → All (Fits es) (grants left ts)
unfolding grants
grants-Fits es left [] h = tt
grants-Fits es left (t ∷ ts) h =
    let taken : ℕ = absorbed left t in
    ((h.0.0, raised_limit-bound taken t h.0.1), grants-Fits es (left - taken) ts h.1)

replace_target-Fits :
    (es : List Device) (g : Target) (ts : List Target)
    → Fits es g
    → All (Fits es) ts
    → All (Fits es) (replace_target g ts)
unfolding replace_target
replace_target-Fits es g [] h k = tt
replace_target-Fits es g (t ∷ ts) h k =
    elim (Bool-cases (str_eq t.device.device_id g.device.device_id)) [
      | inl here ↦ rw here ((k.0.0, h.1), k.1)
      | inr there ↦ rw there (k.0, replace_target-Fits es g ts h k.1)
    ]

replace_all-Fits :
    (es : List Device) (gs ts : List Target)
    → All (Fits es) gs
    → All (Fits es) ts
    → All (Fits es) (replace_all gs ts)
unfolding replace_all
replace_all-Fits es [] ts h k = k
replace_all-Fits es (g ∷ gs) ts h k =
    replace_all-Fits es gs (replace_target g ts) h.1 (replace_target-Fits es g ts h.0 k)

reclaim_slack-Fits :
    (es : List Device) (actual : String → Option ℕ) (ts : List Target)
    → All (Fits es) ts
    → All (Fits es) (reclaim_slack actual ts)
unfolding reclaim_slack
reclaim_slack-Fits es actual ts h = elim (Bool-cases (ltb (slack actual ts) 100000)) [
  | inl little ↦ rw little h
  | inr enough ↦ rw enough (
      replace_all-Fits es (grants (slack actual ts) (absorbers ts)) ts
        (grants-Fits es (slack actual ts) (absorbers ts) (absorbers-All (Fits es) ts h)) h)
]

pub plan-Fits :
    (s : Surroundings) (limit : ℕ) (ds : List Device)
    → All (Fits (eligible s.now ds)) (plan s limit ds)
unfolding plan
plan-Fits s limit ds =
    reclaim_slack-Fits (eligible s.now ds) s.actual
      (waterfall s.now (waterfall_budget s.now limit ds) ds)
      (waterfall-Fits s.now (waterfall_budget s.now limit ds) ds)
