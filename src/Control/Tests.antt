-- ===== src/Control/Tests.antt =====
-- The theorems of the control state at concrete values.
use pv_inverter_master.Base.{◌≡◌, refl, true, false, none, some, [], ◌∷◌, arith, pos}
use pv_inverter_master.StateFile
use pv_inverter_master.Control.{
  ControlState, Clock, initial, validate_wmaxlimpct, is_model_123_address, lock, unlock,
  check_lock_expiry, device_clamp, webapp, venus_os,
}
use pv_inverter_master.Control.Validity.{
  validate_wmaxlimpct_iff, is_model_123_address_iff, device_clamp_bounds,
}
use pv_inverter_master.Control.Locking.{lock_lifetime}
use pv_inverter_master.Control.Override
use pv_inverter_master.Control.Refresh.{done, Loop, round, round_webapp, round_leaves_venus_os}
use pv_inverter_master.Control.Storage.{
  complete, Disk, boot, save_ui_state, save_last_limit, set_device_clamp, get_device_clamp,
}
use pv_inverter_master.Control.Storage.Recovery.{
  boot_forgets_deadline, boot-save_last_limit, get_device_clamp-set_device_clamp,
}

abbrev noon : Clock
noon = record { wall = 1700000000000; mono = 10000 }

abbrev later : Clock
later = record { wall = 1700000060000; mono = 2000 }

abbrev disk : Disk
disk = record {
  last_limit = none;
  ui_state = none;
  state_json = StateFile.missing;
  last_limit_write = complete;
  ui_state_write = complete;
  state_json_writable = true;
}

abbrev limited : ControlState
limited = record initial {
  wmaxlim_ena = 1;
  wmaxlimpct_raw = 60;
  last_source = webapp;
  webapp_revert_at = some 310000;
  clamp_max_pct = 80;
  is_locked = true;
  lock_expires_at = none;
}

abbrev loop : Loop
loop = record {
  control = limited;
  log = Override.empty;
  commands = [];
  broadcasts = 0;
  running = true;
}

abbrev venus_loop : Loop
venus_loop = record loop {
  control = record limited { last_source = venus_os; webapp_revert_at = none };
}

validate_wmaxlimpct_iff_example : validate_wmaxlimpct (pos 100) ≡ none
validate_wmaxlimpct_iff_example = (validate_wmaxlimpct_iff (pos 100)).1 100 refl (omega arith)

is_model_123_address_iff_example : is_model_123_address 40140 10 ≡ true
is_model_123_address_iff_example =
    (is_model_123_address_iff 40140 10 (omega arith)).1 40149 (omega arith) (omega arith)
      (omega arith) (omega arith)

device_clamp_bounds_example : device_clamp (pos 20) (pos 90) ≡ (20, 90)
device_clamp_bounds_example =
    (device_clamp_bounds (pos 20) (pos 90)).3 20 90 refl refl (omega arith) (omega arith)

lock_lifetime_example :
    check_lock_expiry (record noon { mono = 70000 }) (lock 60000 noon initial)
    ≡ (unlock (lock 60000 noon initial), true)
lock_lifetime_example =
    ((lock_lifetime 60000 noon (record noon { mono = 70000 }) initial (omega arith) (omega arith)).1
      (omega arith)).0

round_webapp_example :
    (round done (record noon { mono = 310000 }) loop).commands
    ≡ record { enable = false; limit_pct = 0 } ∷ []
round_webapp_example =
    ((round_webapp done (record noon { mono = 310000 }) loop 310000 refl refl refl).1 (omega arith)
      (λ e. cc)).0

round_leaves_venus_os_example : (round done noon venus_loop).commands ≡ []
round_leaves_venus_os_example = (round_leaves_venus_os done noon venus_loop refl refl).0

boot_forgets_deadline_example :
    boot (save_ui_state noon (record limited { lock_expires_at = some 11000 }) disk) later
    ≡ boot (save_ui_state noon limited disk) later
boot_forgets_deadline_example = boot_forgets_deadline noon later limited disk (some 11000)

boot-save_last_limit_example :
    (boot
      (save_last_limit noon (record limited { last_source = venus_os }) disk)
      later).wmaxlimpct_raw
    ≡ 60
boot-save_last_limit_example =
    ((boot-save_last_limit noon later (record limited { last_source = venus_os }) disk refl refl).0
      (omega arith)).0

get_device_clamp-set_device_clamp_example :
    let s = set_device_clamp "roof" (pos 20) (pos 90) noon limited disk in
    (get_device_clamp "roof" later s.0 s.1).0 ≡ device_clamp (pos 20) (pos 90)
get_device_clamp-set_device_clamp_example =
    (get_device_clamp-set_device_clamp "roof" "barn" (pos 20) (pos 90) noon later limited disk).0
