-- ===== src/Registry/Tests.antt =====
-- The theorems of the device registry at concrete devices.
use pv_inverter_master.Base.{
  ℕ, ◌+◌, ◌≤◌, ◌≡◌, refl, true, false, none, [], ◌∷◌, inr, lookup, insert,
}
use pv_inverter_master.Json.{Value, text, null, get}
use pv_inverter_master.Config.{
  Config, default_entry, default_proxy, default_night_mode, default_webapp, default_venus,
  default_scanner, default_mqtt_publish, default_virtual_inverter,
}
use pv_inverter_master.Connection.{on_poll_success, on_poll_failure}
use pv_inverter_master.Connection.Invariant.{Inv}
use pv_inverter_master.Registry.{
  DeviceRegistry, fresh_registry, manage, new_device_state, launch, start_device, stop_device,
  stop_all, find_entry, PollData,
}
use pv_inverter_master.Registry.Lifecycle
use pv_inverter_master.Registry.Lifecycle.{IsSound, Reach, next, Reach-IsSound}
use pv_inverter_master.Registry.Leaks.{
  leaked_by, one_if_managed, IsAccounted, Run, here, starts, stops, Run-IsAccounted,
}
use pv_inverter_master.Registry.Stopped.{Runs, stop_all_stops, restarted_task_leaks}
use pv_inverter_master.Registry.Poll.{Round, PollState, successful, poll_loop, poll_round}
use pv_inverter_master.Registry.Poll.Counted.{IsPaced, poll_loop-counts}
use pv_inverter_master.Registry.Poll.Late.{late_error_counts_twice}

abbrev config : Config
config = record {
  inverters = default_entry "a" ∷ [];
  gateways = [];
  proxy = default_proxy;
  night_mode = default_night_mode;
  webapp = default_webapp;
  venus = default_venus;
  scanner = default_scanner;
  mqtt_publish = default_mqtt_publish;
  virtual_inverter = default_virtual_inverter;
  log_level = text "INFO";
}

abbrev millis : Value → ℕ
millis v = 1000

abbrev started : DeviceRegistry
started = (start_device millis config "a" fresh_registry).0

started-Reach : Reach millis config started
unfolding lookup
started-Reach = next Lifecycle.Reach.here (Lifecycle.Step.starts "a" fresh_registry refl)

Reach-IsSound_example : IsSound started
Reach-IsSound_example = Reach-IsSound millis config started-Reach

-- Started twice and stopped once.
abbrev restarted : DeviceRegistry
restarted = stop_device "a" (start_device millis config "a" started).0

restarted-Run : Run millis 1 restarted
unfolding lookup leaked_by one_if_managed start_device find_entry get insert launch
restarted-Run = stops "a" (starts config "a" (starts config "a" here))

Run-IsAccounted_example : IsAccounted 1 restarted
Run-IsAccounted_example = Run-IsAccounted millis restarted-Run

stop_all_stops_example :
    ((stop_all started).managed ≡ [])
    × ((stop_all started).devices ≡ [])
    × ((stop_all started).running ≡ [])
stop_all_stops_example = stop_all_stops started (Reach-IsSound millis config started-Reach)

restarted_task_leaks_example :
    let s = stop_device "a" (launch 1000 "a" (default_entry "a") started) in
    (lookup "a" s.managed ≡ none) × (s.running ≡ started.running) × Runs 0 "a" s.running
unfolding lookup start_device find_entry get insert
restarted_task_leaks_example =
    restarted_task_leaks 1000 "a" (default_entry "a") (manage (default_entry "a") 0) started
      (Reach-IsSound millis config started-Reach) refl

abbrev poll_data : PollData
poll_data = record { common_registers = []; inverter_registers = [] }

abbrev round : Round
round = record {
  paused = false;
  connected = none;
  result = successful poll_data;
  collector_raises = false;
  serial = null;
  saves = true;
  callback_raises = true;
  now = 5000;
}

abbrev state : PollState
state = record {
  device = new_device_state 1000;
  tracked = none;
  inverters = default_entry "a" ∷ [];
  saved = 0;
  connects = 0;
  notified = 0;
}

poll_loop-counts_example :
    let s' = poll_loop "a" 1000 (round ∷ round ∷ []) state in
    (s'.device.success ≤ s'.device.total)
    × Inv s'.device.conn_mgr
    × IsPaced 1000 (poll_round "a" 1000 round s').1
poll_loop-counts_example = poll_loop-counts "a" 1000 (round ∷ round ∷ []) round state refl

late_error_counts_twice_example :
    let d = (poll_round "a" 1000 round state).0.device in
    (d.total ≡ 0 + 2)
    × (d.success ≡ 0 + 1)
    × (d.conn_mgr ≡ on_poll_failure 5000 (on_poll_success state.device.conn_mgr))
late_error_counts_twice_example =
    late_error_counts_twice "a" 1000 poll_data round state refl refl (inr refl)
