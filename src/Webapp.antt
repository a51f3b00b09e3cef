-- ===== src/Webapp.antt =====
-- The handlers of src/pv_inverter_proxy/webapp.py that change the power limit: `power_limit_handler` and
-- `venus_lock_handler`. The distributor is there, and its calls and those of the plugins are recorded,
-- a limit of a plugin in tenths of a percent. What Python's `float` makes of a value is an input; a
-- limit that is no whole percentage is not modelled.
pub mod Limits
pub mod Clamp
pub mod Update
pub mod Inverters
mod Tests
use pv_inverter_master.Base.{
  ℕ, suc, ◌+◌, ◌*◌, String, Bool, true, false, not, ◌&&◌, Option, none, some, List, [], ◌∷◌, ◌++◌,
  ltb, leb, ◌==◌, if◌then◌else◌, str_eq, ℤ, pos,
}
use pv_inverter_master.Json.{
  Value, null, boolean, integer, fraction, text, array, object, Items, nil, Fields, end, get,
  has_key, truthy,
}
use pv_inverter_master.Updater.Texts.{is_empty}
use pv_inverter_master.Control.{
  ControlState, Clock, unset, webapp, is_enabled, lock, set_from_webapp, unlock, update_wmaxlim_ena,
  update_wmaxlimpct, validate_wmaxlimpct, wmaxlimpct_float, percent,
}
use pv_inverter_master.Control.Override.{OverrideLog, Event, Action, append}
use pv_inverter_master.Control.Override
use pv_inverter_master.Control.Storage.{Disk, save_ui_state, save_last_limit, set_device_clamp}
use pv_inverter_master.Proxy.{Distribution}
use pv_inverter_master.Throttle.{ThrottleCaps}
use pv_inverter_master.Distributor.Device.{is_binary_caps}
use pv_inverter_master.Distributor.Commands.{Answer, raised, Command, write_power_limit, switch}

pub record Server : Type 0 where
  pub control : ControlState
  pub disk : Disk
  pub log : OverrideLog
  pub distributed : List Distribution
  pub commands : List Command

-- 200, 400, and the 500 of an exception.
pub data Status : Type 0 where
  success bad_request crashed : Status

-- What `float` gives: a ValueError or TypeError, the OverflowError of an integer beyond all floats, which
-- is not caught, a NaN, a negative number, a percentage, or infinity.
pub data FloatRead : Type 0 where
  no_float overflow nan negative infinite : FloatRead
  at : ℕ → FloatRead

abbrev pub event_of : Clock → Action → Option ℕ → String → Event
event_of now action value detail = record {
  ts = now.wall;
  source = Override.webapp;
  action = action;
  value = value;
  detail = detail;
}

abbrev pub logged : Clock → Action → Option ℕ → String → Server → Server
logged now action value detail s = record s {
  log = append (event_of now action value detail) s.log;
}

-- `distributor.distribute`
abbrev pub distribute : ℕ → Bool → Server → Server
distribute limit enable s = record s {
  distributed = s.distributed ++ record { limit_pct = limit; enable = enable } ∷ [];
}

abbrev pub distribute_control : Server → Server
distribute_control s = distribute (wmaxlimpct_float s.control) (is_enabled s.control) s

unfoldable pub apply_limit : ℕ → Clock → Server → Server
apply_limit pct now s = distribute_control (
    logged now Override.set (some pct) ""
      (record s { control = set_from_webapp pct 1 300000 now s.control }))

set_limit : FloatRead → Clock → Server → Server × Status
unfolding apply_limit
set_limit (at pct) now s =
    if ltb 100 pct then (s, bad_request) else elim (validate_wmaxlimpct (pos pct)) [
      | none ↦ (apply_limit pct now s, success)
      | some error ↦ (s, bad_request)
    ]
set_limit nan now s = (s, crashed)
set_limit overflow now s = (s, crashed)
set_limit _ now s = (s, bad_request)

unfoldable pub enable_limit : Clock → Server → Server
enable_limit now s =
    let c = record (update_wmaxlim_ena 1 s.control) {
      last_source = webapp;
      last_change_ts = now.wall;
      webapp_revert_at = some (now.mono + 300000);
    } in
    distribute_control
      (logged now Override.enable (some (wmaxlimpct_float c)) "" (record s { control = c }))

unfoldable pub disable_limit : Clock → Server → Server
disable_limit now s =
    let c = record (update_wmaxlim_ena 0 s.control) {
      last_source = unset;
      webapp_revert_at = none;
    } in
    distribute (wmaxlimpct_float c) false
      (logged now Override.disable none "" (record s { control = c }))

module _ (to_float : Value → FloatRead) where
  limit_action : String → Fields → Clock → Server → Server × Status
  unfolding set_limit enable_limit disable_limit
  limit_action action fs now s =
      if str_eq action "set"
      then (if has_key "limit_pct" fs
          then set_limit (to_float (get "limit_pct" fs)) now s
          else (s, bad_request))
      else if str_eq action "enable"
      then (enable_limit now s, success)
      else if str_eq action "disable"
      then (disable_limit now s, success)
      else (s, bad_request)

  with_action : Value → Fields → Clock → Server → Server × Status
  unfolding limit_action
  with_action (text action) fs now s = limit_action action fs now s
  with_action _ fs now s = (s, bad_request)

  -- `power_limit_handler`; none is a body that is no JSON. A body that is no dict has no `get`.
  unfoldable pub power_limit_handler : Option Value → Clock → Server → Server × Status
  unfolding with_action
  power_limit_handler none now s = (s, bad_request)
  power_limit_handler (some (object fs)) now s = with_action (get "action" fs) fs now s
  power_limit_handler (some _) now s = (s, crashed)

unfoldable pub lock_writes : Bool → Clock → Server → Server
lock_writes permanent now s =
    let locked = lock (if permanent then 0 else 900000) now s.control in
    let c = record (update_wmaxlim_ena 0 (update_wmaxlimpct 100 locked)) { last_source = unset } in
    logged now Override.lock none "Venus OS writes blocked, limit reset to 100%"
      (record s { control = c; disk = save_ui_state now c s.disk })

unfoldable pub unlock_writes : Clock → Server → Server
unlock_writes now s =
    let c = unlock s.control in
    logged now Override.unlock none "Venus OS writes unblocked"
      (record s { control = c; disk = save_ui_state now c s.disk })

lock_action : Value → Fields → Clock → Server → Server × Status
unfolding lock_writes unlock_writes
lock_action (text action) fs now s =
    if str_eq action "lock"
    then (lock_writes (truthy (get "permanent" fs)) now s, success)
    else if str_eq action "unlock"
    then (unlock_writes now s, success)
    else (s, bad_request)
lock_action _ fs now s = (s, bad_request)

unfoldable pub venus_lock_handler : Option Value → Clock → Server → Server × Status
unfolding lock_action
venus_lock_handler none now s = (s, bad_request)
venus_lock_handler (some (object fs)) now s = lock_action (get "action" fs) fs now s
venus_lock_handler (some _) now s = (s, crashed)
