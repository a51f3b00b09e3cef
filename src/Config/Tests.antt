-- ===== src/Config/Tests.antt =====
-- The theorem of the configuration file at a concrete configuration.
use pv_inverter_master.Base.{◌≡◌, refl, true, some, [], ◌∷◌, ℕ, String}
use pv_inverter_master.Json.{text}
use pv_inverter_master.Updater.Config.{default_update_config, load_update_config, missing}
use pv_inverter_master.Config.{
  Config, default_entry, default_gateway, default_proxy, default_night_mode, default_webapp,
  default_venus, default_scanner, default_mqtt_publish, default_virtual_inverter, load_config,
  save_config,
}
use pv_inverter_master.Config.RoundTrip.{IsShaped, load_config-save_config}

abbrev config : Config
config = record {
  inverters = [];
  gateways = ("opendtu", default_gateway ∷ []) ∷ [];
  proxy = default_proxy;
  night_mode = default_night_mode;
  webapp = default_webapp;
  venus = default_venus;
  scanner = default_scanner;
  mqtt_publish = default_mqtt_publish;
  virtual_inverter = default_virtual_inverter;
  log_level = text "INFO";
}

abbrev fresh : ℕ → String
fresh n = "0123456789ab"

config-IsShaped : IsShaped config
config-IsShaped = record {
  inverters = tt;
  gateways = ((refl, tt), tt);
  proxy = refl;
  night_mode = refl;
  webapp = refl;
  venus = refl;
  scanner = refl;
  mqtt_publish = refl;
  virtual_inverter = refl;
}

load_config-save_config_example :
    (load_config fresh (save_config true config missing)
      ≡ some (record config { inverters = default_entry "0123456789ab" ∷ [] }))
    × (load_update_config (save_config true config missing) ≡ default_update_config)
load_config-save_config_example = load_config-save_config fresh config missing config-IsShaped
