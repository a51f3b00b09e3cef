-- ===== src/Distributor/Poll.antt =====
-- `on_poll`: the response time of a device is measured when its power reaches the target.
pub mod Sampled
pub mod Response
use pv_inverter_master.Base.{
  ℕ, ◌+◌, ◌-◌, ◌*◌, Bool, true, false, ◌&&◌, Option, none, some, List, [], ◌∷◌, ◌++◌, ltb, leb,
  ◌==◌, if◌then◌else◌, length, drop,
}
use pv_inverter_master.Throttle.{Ratio}
use pv_inverter_master.Distributor.Device.{Device, is_in_startup}
use pv_inverter_master.Distributor.Commands.{distance}

abbrev pub max_samples : ℕ
max_samples = 10

-- `convergence_tolerance_pct` is 5 and `binary_off_threshold_w` is 50. The power is not negative.
abbrev pub converged : ℕ → ℕ → Bool
converged target actual =
    if target == 0 then ltb actual 50000 else leb (distance actual target * 100) (5 * target)

abbrev pub sum : List ℕ → ℕ
sum [] = 0
sum (x ∷ xs) = x + sum xs

-- `samples[-max_samples:]` of too many.
abbrev pub trimmed : List ℕ → List ℕ
trimmed xs = drop (length xs - max_samples) xs

unfoldable pub settle_target : ℕ → ℕ → Device → Device
settle_target now since d =
    let samples' = trimmed (d.samples ++ ((now - since) ∷ [])) in
    record d {
      samples = samples';
      measured_response_time = some (record { num = sum samples'; den = length samples' });
      target_power = none;
      target_set = none;
    }

unfoldable pub poll_target : Option ℕ → Option ℕ → ℕ → ℕ → Device → Device
unfolding settle_target
poll_target (some target) (some since) now actual d =
    if is_in_startup now d
    then d
    else if converged target actual
    then settle_target now since d
    else d
poll_target _ _ now actual d = d

unfoldable pub on_poll : ℕ → ℕ → Device → Device
unfolding poll_target
on_poll now actual d = poll_target d.target_power d.target_set now actual d
