-- ===== src/Distributor/Distribute.antt =====
-- `distribute` and `redistribute`: a global limit, or the release of all limits. The global limit is in
-- hundredths of a percent; at the whole percentages that the callers pass, the power it allows is a
-- whole number of milliwatts, and else it is rounded down. What the source runs concurrently, on a
-- device each, is done in order here.
pub mod Release
pub mod Plan
pub mod Sound
use pv_inverter_master.Base.{
  ℕ, ◌+◌, ◌-◌, ◌*◌, ◌/◌, min, String, Bool, true, false, not, ◌&&◌, Option, List, [], ◌∷◌, ◌++◌,
  ltb, ◌==◌, if◌then◌else◌, str_eq, Dict,
}
use pv_inverter_master.Distributor.Device.{
  Device, Managed, sync_devices, is_binary_device, is_in_startup, is_throttle_eligible,
  effective_score,
}
use pv_inverter_master.Distributor.Waterfall.{Target, waterfall}
use pv_inverter_master.Distributor.Slack.{reclaim_slack}
use pv_inverter_master.Distributor.Commands.{Answer, Command, send_limit, send_binary_command}

pub record Distributor : Type 0 where
  pub devices : List Device
  pub global_limit : ℕ
  pub enabled : Bool

-- What surrounds a call: the clock, the registry, the plugins' answers and the devices' measured power.
pub record Surroundings : Type 0 where
  pub now : ℕ
  pub managed : Dict Managed
  pub answer : String → Answer
  pub actual : String → Option ℕ

-- `self._device_states.get(device_id)`, and a method on it.
unfoldable pub on_device :
    String → (Device → Device × List Command) → List Device → List Device × List Command
on_device id f [] = ([], [])
on_device id f (d ∷ ds) =
    let (rest, sent) = on_device id f ds in
    let (d', first) = f d in if str_eq d.device_id id then (d' ∷ ds, first) else (d ∷ rest, sent)

unfoldable pub release : ℕ → (String → Answer) → Device → Device × List Command
release now answer d =
    if is_throttle_eligible d
    then if is_binary_device d
      then send_binary_command now (answer d.device_id) true true d
      else send_limit now (answer d.device_id) 1000 false true d
    else (d, [])

unfoldable pub release_all : ℕ → (String → Answer) → List Device → List Device × List Command
release_all now answer [] = ([], [])
release_all now answer (d ∷ ds) =
    let (d', sent) = release now answer d in
    let (rest, others) = release_all now answer ds in (d' ∷ rest, sent ++ others)

abbrev pub counts : ℕ → Device → Bool
counts now d =
    d.entry.enabled && d.entry.aggregate && ltb 0 d.entry.rated_power && not (is_in_startup now d)

unfoldable pub total_rated : ℕ → List Device → ℕ
total_rated now [] = 0
total_rated now (d ∷ ds) =
    let rest = total_rated now ds in if counts now d then d.entry.rated_power + rest else rest

unfoldable pub non_throttle_rated : ℕ → List Device → ℕ
non_throttle_rated now [] = 0
non_throttle_rated now (d ∷ ds) =
    let rest = non_throttle_rated now ds in
    if counts now d && not d.entry.throttle_enabled then d.entry.rated_power + rest else rest

-- The milliwatts for the waterfall.
unfoldable pub waterfall_budget : ℕ → ℕ → List Device → ℕ
waterfall_budget now limit ds = limit * total_rated now ds / 10 - non_throttle_rated now ds * 1000

-- `_sort_binary_reenable`: a stable sort.
pub place_slower : Target → List Target → List Target
place_slower t [] = t ∷ []
place_slower t (u ∷ us) =
    if ltb (effective_score u.device) (effective_score t.device)
    then u ∷ place_slower t us
    else t ∷ u ∷ us

unfoldable pub sort_binary_reenable : List Target → List Target
unfolding place_slower
sort_binary_reenable [] = []
sort_binary_reenable (t ∷ ts) = place_slower t (sort_binary_reenable ts)

pub proportional : List Target → List Target
proportional [] = []
proportional (t ∷ ts) =
    let rest = proportional ts in if is_binary_device t.device then rest else t ∷ rest

-- The binary devices whose limit is above 0, or is 0.
pub binary_ones : Bool → List Target → List Target
binary_ones on [] = []
binary_ones true (t ∷ ts) =
    let rest = binary_ones true ts in
    if is_binary_device t.device && ltb 0 t.limit then t ∷ rest else rest
binary_ones false (t ∷ ts) =
    let rest = binary_ones false ts in
    if is_binary_device t.device && not (ltb 0 t.limit) then t ∷ rest else rest

unfoldable pub send_limits :
    ℕ → (String → Answer) → List Target → List Device → List Device × List Command
unfolding on_device
send_limits now answer [] ds = (ds, [])
send_limits now answer (t ∷ ts) ds =
    let id = t.device.device_id in
    let (ds', sent) = on_device id (send_limit now (answer id) t.limit true false) ds in
    let (after, others) = send_limits now answer ts ds' in (after, sent ++ others)

unfoldable pub switch_all :
    ℕ → (String → Answer) → Bool → List Target → List Device → List Device × List Command
unfolding on_device
switch_all now answer on [] ds = (ds, [])
switch_all now answer on (t ∷ ts) ds =
    let id = t.device.device_id in
    let (ds', sent) = on_device id (send_binary_command now (answer id) on false) ds in
    let (after, others) = switch_all now answer on ts ds' in (after, sent ++ others)

-- The part of `distribute` that sends the targets.
unfoldable pub send_targets :
    ℕ → (String → Answer) → List Target → List Device → List Device × List Command
unfolding proportional binary_ones
send_targets now answer ts ds =
    let (ds1, limits) = send_limits now answer (proportional ts) ds in
    let (ds2, offs) = switch_all now answer false (binary_ones false ts) ds1 in
    let (ds3, ons) = switch_all now answer true (sort_binary_reenable (binary_ones true ts)) ds2 in
    (ds3, limits ++ (offs ++ ons))

unfoldable pub plan : Surroundings → ℕ → List Device → List Target
plan s limit ds = reclaim_slack s.actual (waterfall s.now (waterfall_budget s.now limit ds) ds)

unfoldable pub limit_devices : Surroundings → ℕ → List Device → List Device × List Command
limit_devices s limit ds =
    if total_rated s.now ds == 0 then (ds, []) else send_targets s.now s.answer (plan s limit ds) ds

unfoldable pub distribute_to : Surroundings → ℕ → Bool → List Device → List Device × List Command
distribute_to s limit true ds = limit_devices s limit ds
distribute_to s limit false ds = release_all s.now s.answer ds

unfoldable pub distribute : Surroundings → ℕ → Bool → Distributor → Distributor × List Command
distribute s limit enable p =
    let limit' = min 10000 limit in
    let (ds, sent) = distribute_to s limit' enable (sync_devices s.managed p.devices) in
    (record { devices = ds; global_limit = limit'; enabled = enable }, sent)

unfoldable pub redistribute : Surroundings → Distributor → Distributor × List Command
redistribute s p = if p.enabled then distribute s p.global_limit true p else (p, [])
