-- ===== src/Distributor/Slack.antt =====
-- `_reclaim_slack_into_targets`: what devices ahead in the waterfall do not produce goes to those that it
-- limits. `actual` is `_read_actual_power_w`, in milliwatts; it is none without a snapshot.
pub mod Grants
use pv_inverter_master.Base.{
  ℕ, ◌+◌, ◌-◌, ◌*◌, min, String, Bool, true, false, not, ◌&&◌, ◌||◌, Option, none, some, List, [],
  ◌∷◌, ltb, leb, ◌==◌, if◌then◌else◌, str_eq,
}
use pv_inverter_master.Sunspec.{codes}
use pv_inverter_master.Throttle.{round_half_even}
use pv_inverter_master.Distributor.Device.{Device, is_binary_device, effective_score}
use pv_inverter_master.Distributor.Waterfall.{Target, codes_before}

abbrev pub slack_min_per_device : ℕ
slack_min_per_device = 50000

abbrev pub slack_min_total : ℕ
slack_min_total = 100000

abbrev pub slack_headroom_floor : ℕ
slack_headroom_floor = 50000

-- The milliwatts of a target.
abbrev pub target_power : Target → ℕ
target_power t = t.limit * t.device.entry.rated_power

-- Limited by the waterfall, and able to take a fraction.
unfoldable pub absorbs : Target → Bool
absorbs t = ltb t.limit 1000 && not (is_binary_device t.device)

-- Highest score first, then by id.
unfoldable pub takes_first : Target → Target → Bool
takes_first t u =
    ltb (effective_score u.device) (effective_score t.device)
    || (effective_score t.device == effective_score u.device
        && codes_before (codes t.device.device_id) (codes u.device.device_id))

unfoldable pub place_absorber : Target → List Target → List Target
place_absorber t [] = t ∷ []
place_absorber t (u ∷ us) = if takes_first u t then u ∷ place_absorber t us else t ∷ u ∷ us

unfoldable pub absorbers : List Target → List Target
unfolding place_absorber
absorbers [] = []
absorbers (t ∷ ts) = let rest = absorbers ts in if absorbs t then place_absorber t rest else rest

abbrev pub noticed : ℕ → ℕ
noticed shortfall = if ltb slack_min_per_device shortfall then shortfall else 0

abbrev pub shortfall : Option ℕ → Target → ℕ
shortfall none t = 0
shortfall (some actual) t = noticed (target_power t - actual)

unfoldable pub slack : (String → Option ℕ) → List Target → ℕ
slack actual [] = 0
slack actual (t ∷ ts) =
    let rest = slack actual ts in
    if absorbs t then rest else shortfall (actual t.device.device_id) t + rest

-- What an absorber takes of the slack.
unfoldable pub absorbed : ℕ → Target → ℕ
absorbed left t =
    let headroom = t.device.entry.rated_power * 1000 - target_power t in
    if leb headroom slack_headroom_floor then 0 else min left headroom

unfoldable pub raised_limit : ℕ → Target → ℕ
raised_limit taken t =
    if taken == 0
    then t.limit
    else min 1000 (round_half_even (target_power t + taken) t.device.entry.rated_power)

-- The targets of the absorbers, one after the other, while slack is left.
unfoldable pub grants : ℕ → List Target → List Target
unfolding absorbed raised_limit
grants left [] = []
grants left (t ∷ ts) =
    let taken = absorbed left t in
    record { device = t.device; limit = raised_limit taken t } ∷ grants (left - taken) ts

-- `targets[device_id] = limit`
unfoldable pub replace_target : Target → List Target → List Target
replace_target g [] = []
replace_target g (t ∷ ts) =
    if str_eq t.device.device_id g.device.device_id
    then record t { limit = g.limit } ∷ ts
    else t ∷ replace_target g ts

unfoldable pub replace_all : List Target → List Target → List Target
unfolding replace_target
replace_all [] ts = ts
replace_all (g ∷ gs) ts = replace_all gs (replace_target g ts)

unfoldable pub reclaim_slack : (String → Option ℕ) → List Target → List Target
unfolding replace_all
reclaim_slack actual ts =
    if ltb (slack actual ts) slack_min_total
    then ts
    else replace_all (grants (slack actual ts) (absorbers ts)) ts
