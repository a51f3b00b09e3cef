-- ===== src/Context.antt =====
-- src/pv_inverter_proxy/context.py and updater/maintenance.py: the shared application state that the
-- write path reads, and the maintenance flag that the updater raises. Times are whole milliseconds.
use pv_inverter_master.Base.{ℕ, String, Bool, true, false, not, Option, some, if◌then◌else◌}
use pv_inverter_master.Control.Override.{OverrideLog}

pub record AppContext : Type 0 where
  pub venus_os_detected : Bool
  pub venus_os_detected_ts : ℕ
  pub venus_os_client_ip : String
  pub last_modbus_client_ip : String
  pub maintenance_mode : Bool
  pub maintenance_entered_at : Option ℕ
  pub override_log : Option OverrideLog

-- MAINTENANCE_STRATEGY
pub data Strategy : Type 0 where
  slavebusy silent_drop : Strategy

abbrev pub maintenance_strategy : Strategy
maintenance_strategy = slavebusy

-- `enter_maintenance_mode`; a second call changes nothing.
unfoldable pub enter_maintenance_mode : ℕ → AppContext → AppContext
enter_maintenance_mode now a =
    if a.maintenance_mode
    then a
    else record a { maintenance_mode = true; maintenance_entered_at = some now }

unfoldable pub exit_maintenance_mode : AppContext → AppContext
exit_maintenance_mode a = if a.maintenance_mode then record a { maintenance_mode = false } else a

unfoldable pub is_modbus_write_allowed : AppContext → Bool
is_modbus_write_allowed a = not a.maintenance_mode
