-- ===== src/Webapp/Clamp.antt =====
-- `power_clamp_handler` of src/pv_inverter_proxy/webapp.py. What Python's `int` makes of a value is an input,
-- as are the text of a log entry and the plugins' answers; a device id that is no text is not
-- modelled.
pub mod Ceiling
use pv_inverter_master.Base.{
  ℕ, suc, ◌+◌, ◌*◌, String, Bool, true, false, not, ◌&&◌, Option, none, some, List, [], ◌∷◌, ◌++◌,
  ltb, leb, ◌==◌, if◌then◌else◌, str_eq, ℤ, pos,
}
use pv_inverter_master.Json.{
  Value, null, boolean, integer, fraction, text, array, object, Items, nil, Fields, end, get,
  has_key,
}
use pv_inverter_master.Updater.Texts.{is_empty}
use pv_inverter_master.Control.{
  ControlState, Clock, unset, webapp, is_enabled, lock, set_from_webapp, unlock, update_wmaxlim_ena,
  update_wmaxlimpct, validate_wmaxlimpct, wmaxlimpct_float, percent,
}
use pv_inverter_master.Control.Override.{OverrideLog, Event, Action, append}
use pv_inverter_master.Control.Override
use pv_inverter_master.Control.Storage.{Disk, save_ui_state, save_last_limit, set_device_clamp}
use pv_inverter_master.Proxy.{Distribution}
use pv_inverter_master.Throttle.{ThrottleCaps}
use pv_inverter_master.Distributor.Device.{is_binary_caps}
use pv_inverter_master.Distributor.Commands.{Answer, raised, Command, write_power_limit, switch}
use pv_inverter_master.Webapp.{
  Server, Status, success, bad_request, crashed, logged, distribute_control,
}

-- What surrounds a clamp: Python's `int`, none for an exception, the text of the log, the plugin of a
-- device, with its capabilities, and how its call ends.
pub record Devices : Type 0 where
  pub to_int : Value → Option ℤ
  pub detail : ℕ → ℕ → String
  pub plugin : String → Option (Option ThrottleCaps)
  pub answer : Answer

-- The new global clamps, and the limit that they are.
unfoldable pub clamp_control : ℕ → ℕ → ControlState → ControlState
clamp_control lo hi c =
    let clamped = record c { clamp_min_pct = lo; clamp_max_pct = hi } in
    if lo == 0 && leb 100 hi
    then update_wmaxlimpct 100 (update_wmaxlim_ena 0 clamped)
    else update_wmaxlim_ena 1 (update_wmaxlimpct hi clamped)

unfoldable pub clamp_virtual : String → ℕ → ℕ → Clock → Server → Server
clamp_virtual detail lo hi now s =
    let c = record (clamp_control lo hi s.control) {
      last_source = webapp;
      last_change_ts = now.wall;
    } in
    let action = if lo == 0 && leb 100 hi then Override.release else Override.clamp in
    distribute_control (
      logged now action (some (wmaxlimpct_float c)) detail
        (record s { control = c; disk = save_last_limit now c (save_ui_state now c s.disk) }))

clamp_command : Option ThrottleCaps → String → ℕ → Command
clamp_command caps id hi =
    if is_binary_caps caps
    then switch id (ltb 0 hi)
    else write_power_limit id true (if ltb hi 100 then hi * 10 else 1000) true

answered : Answer → Status
answered raised = crashed
answered _ = success

clamp_device : Devices → Option (Option ThrottleCaps) → String → ℕ → Server → Server × Status
unfolding clamp_command answered
clamp_device e none id hi s = (s, success)
clamp_device e (some caps) id hi s =
    (record s { commands = s.commands ++ clamp_command caps id hi ∷ [] }, answered e.answer)

unfoldable pub set_clamp : Devices → String → ℕ → ℕ → Clock → Server → Server × Status
unfolding clamp_device
set_clamp e id lo hi now s =
    let (c, d) = set_device_clamp id (pos lo) (pos hi) now s.control s.disk in
    let s' = record s { control = c; disk = d } in
    if str_eq id "virtual"
    then (clamp_virtual (e.detail lo hi) lo hi now s', success)
    else clamp_device e (e.plugin id) id hi s'

-- `max(0, min(100, int(body.get(key, d))))`; none is an exception.
abbrev clamped : Option ℤ → Option ℕ
clamped none = none
clamped (some z) = some (percent z)

unfoldable pub read_pct : Devices → String → ℕ → Fields → Option ℕ
read_pct e key d fs = clamped (if has_key key fs then e.to_int (get key fs) else some (pos d))

with_clamps : Option ℕ → Option ℕ → Devices → String → Clock → Server → Server × Status
unfolding set_clamp
with_clamps (some lo) (some hi) e id now s = set_clamp e id lo hi now s
with_clamps _ _ e id now s = (s, crashed)

clamp_of : Devices → Value → Fields → Clock → Server → Server × Status
unfolding with_clamps read_pct
clamp_of e (text id) fs now s =
    if is_empty id
    then (s, bad_request)
    else with_clamps (read_pct e "min_pct" 0 fs) (read_pct e "max_pct" 100 fs) e id now s
clamp_of e _ fs now s = (s, bad_request)

unfoldable pub power_clamp_handler : Devices → Option Value → Clock → Server → Server × Status
unfolding clamp_of
power_clamp_handler e none now s = (s, bad_request)
power_clamp_handler e (some (object fs)) now s = clamp_of e (get "device_id" fs) fs now s
power_clamp_handler e (some _) now s = (s, crashed)
