-- ===== src/Webapp/Inverters/Tests.antt =====
-- The theorems of the inverter handlers at a concrete plant.
use pv_inverter_master.Base.{
  ℕ, ◌≡◌, refl, String, Bool, true, false, some, [], ◌∷◌, ◌++◌, pos, insert, lookup,
}
use pv_inverter_master.Json.{
  Value, text, integer, boolean, object, Fields, end, field, get, has_key, put,
}
use pv_inverter_master.Updater.Config.{missing}
use pv_inverter_master.Config.{
  Config, default_entry, default_proxy, default_night_mode, default_webapp, default_venus,
  default_scanner, default_mqtt_publish, default_virtual_inverter, load_config,
}
use pv_inverter_master.Config.Checks.{validate_inverter_config}
use pv_inverter_master.Registry.{
  DeviceRegistry, fresh_registry, find_entry, start_all, start_device, stop_device, cancel,
}
use pv_inverter_master.Registry.Lifecycle.{IsSound, Reach-IsSound}
use pv_inverter_master.Registry.Lifecycle
use pv_inverter_master.Webapp.Inverters.{
  Plant, crashed, entry_of, inverters_add_handler, inverters_update_handler,
  inverters_delete_handler, without_entry, reconfigure_active,
}
use pv_inverter_master.Webapp.Inverters.Deleted.{IsDeleted, deletion_complete}
use pv_inverter_master.Webapp.Inverters.Unknown.{unknown_type_stops_boot}
use pv_inverter_master.Config.RoundTrip.{IsShaped}

abbrev config : Config
config = record {
  inverters = default_entry "a" ∷ [];
  gateways = [];
  proxy = default_proxy;
  night_mode = default_night_mode;
  webapp = default_webapp;
  venus = default_venus;
  scanner = default_scanner;
  mqtt_publish = default_mqtt_publish;
  virtual_inverter = default_virtual_inverter;
  log_level = text "INFO";
}

abbrev plant : Plant
plant = record {
  config = config;
  config_file = missing;
  registry = fresh_registry;
  polling_paused = false;
}

abbrev millis : Value → ℕ
millis v = 1000

abbrev is_address : Value → Bool
is_address (text s) = true
is_address v = false

abbrev strange : Fields
strange = field "host" (text "10.0.0.3") (field "type" (text "strange") end)

config-IsShaped : IsShaped config
config-IsShaped = record {
  inverters = (refl, tt);
  gateways = tt;
  proxy = refl;
  night_mode = refl;
  webapp = refl;
  venus = refl;
  scanner = refl;
  mqtt_publish = refl;
  virtual_inverter = refl;
}

abbrev fresh : ℕ → String
fresh n = "0123456789ab"

unknown_type_stops_boot_example :
    let c = record config { inverters = config.inverters ++ entry_of "b" strange ∷ [] } in
    let (p', answer) =
      inverters_add_handler millis is_address true "b" (some (object strange)) plant in
    (answer ≡ crashed)
    × (load_config fresh p'.config_file ≡ some c)
    × ((r : DeviceRegistry) → (start_all millis c r).1 ≡ false)
unfolding has_key get validate_inverter_config find_entry
unknown_type_stops_boot_example =
    unknown_type_stops_boot millis is_address fresh "b" strange plant config-IsShaped refl refl refl
      refl refl

abbrev bad_port : Fields
bad_port = field "port" (integer (pos 0)) (field "enabled" (boolean false) end)

deletion_complete_example : IsDeleted "a" plant (inverters_delete_handler millis true "a" plant).0
unfolding inverters_delete_handler without_entry reconfigure_active get
deletion_complete_example =
    deletion_complete millis true "a" plant (Reach-IsSound millis config Lifecycle.here) refl

-- The device is started, a refused update disables it in memory, a second one enables it, and it is
-- deleted: its first task still runs.
abbrev good_port : Fields
good_port = field "port" (integer (pos 1502)) (field "enabled" (boolean true) end)

abbrev run_plant : Plant
run_plant = record plant { registry = (start_all millis config fresh_registry).0 }

abbrev after_refusal : Plant
after_refusal =
    (inverters_update_handler millis is_address true "a" (some (object bad_port)) run_plant).0

abbrev after_enabling : Plant
after_enabling =
    (inverters_update_handler millis is_address true "a" (some (object good_port)) after_refusal).0

reenabled_task_leaks :
    (inverters_delete_handler millis true "a" after_enabling).0.registry.running ≡ (0, "a") ∷ []
unfolding inverters_delete_handler without_entry inverters_update_handler find_entry get
    validate_inverter_config has_key put reconfigure_active start_device stop_device lookup insert
    start_all cancel
reenabled_task_leaks = refl
