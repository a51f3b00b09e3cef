-- ===== src/Proxy.antt =====
-- src/pv_inverter_proxy/proxy.py: the Modbus server's side of Venus OS, `StalenessAwareSlaveContext`.
-- The control state is present, as `run_modbus_server` always passes one; the application context
-- and the distributor may be missing. `store["h"]` is the cache's datablock, so writes to either
-- are kept in one list, `cache.datablock`. What the code hands to pymodbus's own `setValues` is kept in
-- `passed`, and the distributor's calls in `distributed`; a call of `distribute` returns.
pub mod Dispatch
pub mod Writes
pub mod Limit
pub mod Maintenance
pub mod Gate
pub mod Lock
pub mod Inflight
mod Tests
use pv_inverter_master.Base.{
  ℕ, suc, ◌+◌, ◌-◌, String, Bool, true, false, not, ◌&&◌, Option, none, some, List, [], ◌∷◌, ◌++◌,
  leb, ltb, ◌==◌, min, max, if◌then◌else◌, length, ℤ, pos, str_eq,
}
use pv_inverter_master.Cache.{RegisterCache, BlockWrite, is_stale}
use pv_inverter_master.Context.{AppContext, Strategy, slavebusy, silent_drop, maintenance_strategy}
use pv_inverter_master.Control.{
  ControlState, Clock, InvalidValue, validate_wmaxlimpct, is_model_123_address, model_123_start,
  wmaxlimpct_offset, wmaxlim_ena_offset, update_wmaxlimpct, update_wmaxlim_ena, set_from_venus_os,
  wmaxlimpct_float, is_enabled, get_model_123_readback,
}
use pv_inverter_master.Control.Override
use pv_inverter_master.Control.Override.{Action}
use pv_inverter_master.Control.Storage.{Disk, save_last_limit}

-- A call `distribute(limit_pct, enable)`.
pub record Distribution : Type 0 where
  pub limit_pct : ℕ
  pub enable : Bool

pub record Slave : Type 0 where
  pub cache : RegisterCache
  pub control : ControlState
  pub app : Option AppContext
  pub has_distributor : Bool
  pub disk : Disk
  pub passed : List BlockWrite
  pub distributed : List Distribution
  pub last_successful_read : ℕ
  pub read_count : ℕ
  pub inflight_count : ℕ
  pub inflight_drained : Bool

-- `ok` is a return; the others are DEVICE_BUSY and the two ILLEGAL_VALUE exceptions.
pub data Reply : Type 0 where
  ok busy bad_enable : Reply
  illegal : InvalidValue → Reply

-- `getValues`: `none` is the exception of a stale cache; otherwise pymodbus reads the datablock.
unfoldable pub get_values : ℕ → Slave → Option Slave
get_values now s =
    if is_stale now s.cache
    then none
    else some (record s { last_successful_read = now; read_count = s.read_count + 1 })

abbrev pub in_maintenance : Option AppContext → Bool
in_maintenance none = false
in_maintenance (some a) = a.maintenance_mode

promote : String → String → String
promote candidate ip = if str_eq candidate "" then ip else candidate

-- The first write to Model 123 marks Venus OS as detected, at the address of the last client.
pub detect : Bool → Clock → Option AppContext → Option AppContext
unfolding promote
detect hit now none = none
detect hit now (some a) =
    if hit && not a.venus_os_detected
    then some (record a {
      venus_os_detected = true;
      venus_os_detected_ts = now.wall;
      venus_os_client_ip = promote a.last_modbus_client_ip a.venus_os_client_ip;
    })
    else some a

abbrev pub store_write : ℕ → List ℕ → Slave → Slave
store_write address values s = record s {
  cache = record s.cache {
    datablock = s.cache.datablock ++ record { address = address; values = values } ∷ [];
  };
}

-- `_update_model_123_readback`
update_readback : Slave → Slave
update_readback s = store_write 40150 (get_model_123_readback s.control) s

append_venus : Clock → Action → ℕ → Option Override.OverrideLog → Option Override.OverrideLog
append_venus now action value none = none
append_venus now action value (some l) =
    let e : Override.Event = record {
      ts = now.wall;
      source = Override.venus_os;
      action = action;
      value = some value;
      detail = "";
    } in
    some (Override.append e l)

log_venus : Clock → Action → ℕ → Option AppContext → Option AppContext
unfolding append_venus
log_venus now action value none = none
log_venus now action value (some a) =
    some (record a { override_log = append_venus now action value a.override_log })

-- The limit that a valid request becomes: the clamps of the control state, with a floor of 1.
unfoldable pub clamp_limit : ControlState → ℕ → ℕ
clamp_limit c v = max (max c.clamp_min_pct 1) (min c.clamp_max_pct v)

-- `_handle_local_control_write` at the limit register.
pub set_limit : Clock → ℕ → Slave → Slave
unfolding log_venus update_readback
set_limit now v s =
    let set = update_wmaxlim_ena 1 (update_wmaxlimpct (clamp_limit s.control v) s.control) in
    let c = set_from_venus_os now set in
    update_readback (record s {
      control = c;
      disk = save_last_limit now c s.disk;
      app = log_venus now Override.set (wmaxlimpct_float c) s.app;
    })

pub limit_outcome : Option InvalidValue → Clock → ℕ → Slave → Slave × Reply
unfolding set_limit
limit_outcome (some e) now v s = (s, illegal e)
limit_outcome none now v s = (set_limit now v s, ok)

pub write_limit : Clock → ℕ → Slave → Slave × Reply
unfolding limit_outcome
write_limit now v s = limit_outcome (validate_wmaxlimpct (pos v)) now v s

-- … and at the enable register.
pub set_enable : Clock → ℕ → Slave → Slave
unfolding log_venus update_readback
set_enable now v s =
    let c = set_from_venus_os now (update_wmaxlim_ena v s.control) in
    let action = if is_enabled c then Override.enable else Override.disable in
    update_readback
      (record s { control = c; app = log_venus now action (wmaxlimpct_float c) s.app })

pub write_enable : Clock → ℕ → Slave → Slave × Reply
unfolding set_enable
write_enable now v s = if leb v 1 then (set_enable now v s, ok) else (s, bad_enable)

-- `_handle_local_control_write`. The offset of an address below Model 123 is negative in the source
-- and 0 here: neither is that of a control register.
pub handle_local_control_write : Clock → ℕ → List ℕ → Slave → Slave × Reply
handle_local_control_write now address [] s = (store_write (address + 1) [] s, ok)
handle_local_control_write now address (v ∷ vs) s =
    let offset = address - model_123_start in
    if offset == wmaxlimpct_offset
    then write_limit now v s
    else if offset == wmaxlim_ena_offset
    then write_enable now v s
    else (store_write (address + 1) (v ∷ vs) s, ok)

pub distribute : Slave → Slave
distribute s =
    if s.has_distributor
    then record s {
      distributed =
          s.distributed
          ++ record { limit_pct = wmaxlimpct_float s.control; enable = is_enabled s.control } ∷ [];
    }
    else s

pub after_control_write : Slave × Reply → Slave × Reply
unfolding distribute
after_control_write (s, ok) = (distribute s, ok)
after_control_write (s, r) = (s, r)

abbrev gate_reply : Strategy → Reply
gate_reply slavebusy = busy
gate_reply silent_drop = ok

-- The entry and the `finally` of `async_setValues`.
unfoldable pub enter : Slave → Slave
enter s = record s { inflight_count = s.inflight_count + 1; inflight_drained = false }

unfoldable pub leave : Slave → Slave
leave s = record s {
  inflight_count = s.inflight_count - 1;
  inflight_drained = if leb s.inflight_count 1 then true else s.inflight_drained;
}

-- The body of `async_setValues` between the two.
unfoldable pub handle_write : Clock → ℕ → List ℕ → Slave → Slave × Reply
unfolding handle_local_control_write write_limit write_enable after_control_write
handle_write now address values s =
    let hit = is_model_123_address address (length values) in
    let s' = record s { app = detect hit now s.app } in
    if in_maintenance s'.app && hit
    then (s', gate_reply maintenance_strategy)
    else if hit
    then after_control_write (handle_local_control_write now address values s')
    else (
      record s' { passed = s'.passed ++ record { address = address; values = values } ∷ [] },
      ok,
    )

-- `async_setValues`, run with no other task in between.
unfoldable pub async_set_values : Clock → ℕ → List ℕ → Slave → Slave × Reply
async_set_values now address values s =
    let (s', r) = handle_write now address values (enter s) in (leave s', r)
