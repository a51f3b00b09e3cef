-- ===== src/Distributor/Waterfall.antt =====
-- `_waterfall`: the devices in the order of their scores, and the budget that each one gets. The result
-- dict of the source is a list here, with the device of each entry at hand.
pub mod Sorted
pub mod Budget
use pv_inverter_master.Base.{
  ℕ, ◌+◌, ◌-◌, ◌*◌, min, Bool, true, false, not, ◌&&◌, ◌||◌, List, [], ◌∷◌, ltb, ◌==◌,
  if◌then◌else◌,
}
use pv_inverter_master.Sunspec.{codes}
use pv_inverter_master.Throttle.{round_half_even}
use pv_inverter_master.Distributor.Device.{
  Device, is_in_startup, is_throttle_eligible, effective_score,
}

-- `device_id < other_id`, by code points.
unfoldable pub codes_before : List ℕ → List ℕ → Bool
codes_before xs [] = false
codes_before [] (y ∷ ys) = true
codes_before (x ∷ xs) (y ∷ ys) = ltb x y || (x == y && codes_before xs ys)

-- The sort key: score, rated power, id.
unfoldable pub before : Device → Device → Bool
before d e =
    ltb (effective_score d) (effective_score e)
    || (effective_score d == effective_score e
        && (ltb d.entry.rated_power e.entry.rated_power
            || (d.entry.rated_power == e.entry.rated_power
                && codes_before (codes d.device_id) (codes e.device_id))))

unfoldable pub place : Device → List Device → List Device
place d [] = d ∷ []
place d (e ∷ es) = if before e d then e ∷ place d es else d ∷ e ∷ es

unfoldable pub sorted : List Device → List Device
unfolding place
sorted [] = []
sorted (d ∷ ds) = place d (sorted ds)

unfoldable pub eligible : ℕ → List Device → List Device
eligible now [] = []
eligible now (d ∷ ds) =
    let rest = eligible now ds in
    if is_throttle_eligible d && not (is_in_startup now d) then d ∷ rest else rest

pub record Target : Type 0 where
  pub device : Device
  pub limit : ℕ

-- What a device gets of the remaining milliwatts, and the limit that this is.
abbrev pub budget : ℕ → Device → ℕ
budget remaining d = min remaining (d.entry.rated_power * 1000)

unfoldable pub limit_of : ℕ → Device → ℕ
limit_of remaining d =
    if remaining == 0
    then 0
    else min 1000 (round_half_even (budget remaining d) d.entry.rated_power)

unfoldable pub allot : ℕ → List Device → List Target
unfolding limit_of
allot remaining [] = []
allot remaining (d ∷ ds) =
    record { device = d; limit = limit_of remaining d } ∷ allot (remaining - budget remaining d) ds

unfoldable pub waterfall : ℕ → ℕ → List Device → List Target
waterfall now allowed ds = allot allowed (sorted (eligible now ds))
