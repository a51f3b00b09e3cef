-- ===== src/Config.antt =====
-- src/pv_inverter_proxy/config.py. A dataclass instance is the fields of it by name, in the order of the class,
-- as `asdict` gives them: the loader checks no types. YAML values are those of `Json`, and `yaml.dump`
-- is read back as what was dumped. A fresh identifier comes with its number.
pub mod Checks
pub mod RoundTrip
mod Tests
use pv_inverter_master.Base.{
  ℕ, zero, suc, ◌+◌, String, Bool, true, false, not, ◌&&◌, ◌||◌, Option, none, some, List, [], ◌∷◌,
  str_eq, if◌then◌else◌, ℤ, pos, negsuc, Dict, lookup, leb,
}
use pv_inverter_master.Json.{
  Value, null, boolean, integer, fraction, text, array, object, Items, nil, cons, Fields, end,
  field, get, has_key, truthy,
}
use pv_inverter_master.Updater.Config.{YamlFile, missing, broken, parsed}

-- `InverterEntry`, with the defaults of its fields.
abbrev pub default_entry : String → Fields
default_entry id = field "host" (text "192.168.3.18") (
    field "port" (integer (pos 1502)) (
      field "unit_id" (integer (pos 1)) (
        field "enabled" (boolean true) (
          field "id" (text id) (
            field "manufacturer" (text "") (
              field "model" (text "") (
                field "serial" (text "") (
                  field "firmware_version" (text "") (
                    field "type" (text "solaredge") (
                      field "name" (text "") (
                        field "gateway_host" (text "") (
                          field "gateway_user" (text "") (
                            field "gateway_password" (text "") (
                              field "shelly_gen" (text "") (
                                field "rated_power" (integer (pos 0)) (
                                  field "panel_power_wp" (integer (pos 0)) (
                                    field "throttle_order" (integer (pos 1)) (
                                      field "throttle_enabled" (boolean true) (
                                        field "throttle_dead_time_s" fraction
                                          (field "aggregate" (boolean true) end))))))))))))))))))))

abbrev pub default_gateway : Fields
default_gateway = field "host" (text "") (
    field "user" (text "admin")
      (field "password" (text "openDTU42") (field "poll_interval" fraction end)))

abbrev pub default_proxy : Fields
default_proxy = field "host" (text "0.0.0.0") (
    field "port" (integer (pos 502))
      (field "poll_interval" fraction (field "staleness_timeout" fraction end)))

abbrev pub default_night_mode : Fields
default_night_mode = field "threshold_seconds" fraction end

abbrev pub default_webapp : Fields
default_webapp = field "port" (integer (pos 80)) end

abbrev pub default_venus : Fields
default_venus =
    field "host" (text "")
      (field "port" (integer (pos 1883)) (field "portal_id" (text "") (field "name" (text "") end)))

abbrev pub default_scanner : Fields
default_scanner =
    field "ports" (array (cons (integer (pos 502)) (cons (integer (pos 1502)) nil))) end

abbrev pub default_mqtt_publish : Fields
default_mqtt_publish = field "enabled" (boolean false) (
    field "host" (text "mqtt-master.local") (
      field "port" (integer (pos 1883)) (
        field "topic_prefix" (text "pv-inverter-proxy") (
          field "interval_s" (integer (pos 5))
            (field "client_id" (text "pv-proxy-pub") (field "name" (text "") end))))))

abbrev pub default_virtual_inverter : Fields
default_virtual_inverter = field "name" (text "Fronius Proxy") end

pub record Config : Type 0 where
  pub inverters : List Fields
  pub gateways : Dict (List Fields)
  pub proxy : Fields
  pub night_mode : Fields
  pub webapp : Fields
  pub venus : Fields
  pub scanner : Fields
  pub mqtt_publish : Fields
  pub virtual_inverter : Fields
  pub log_level : Value

-- `Class(**{k: v for k, v in raw.items() if k in Class.__dataclass_fields__})`
pub overlay : Fields → Fields → Fields
overlay end raw = end
overlay (field k d ds) raw = field k (if has_key k raw then get k raw else d) (overlay ds raw)

abbrev pub and_then {ℓ κ} : {A : Type ℓ} {B : Type κ} → Option A → (A → Option B) → Option B
and_then none f = none
and_then (some a) f = f a

-- The entries of a list, each with a fresh identifier for want of one; an element that is no dict has
-- no `items`.
pub load_entries : (ℕ → String) → ℕ → Items → Option (List Fields)
unfolding overlay
load_entries fresh n nil = some []
load_entries fresh n (cons (object raw) rest) =
    and_then (load_entries fresh (suc n) rest)
      λ es. some (overlay (default_entry (fresh n)) raw ∷ es)
load_entries fresh n (cons _ rest) = none

-- A list that is there but empty counts as one that is not.
pub load_inverters : (ℕ → String) → Value → Option (List Fields)
unfolding load_entries
load_inverters fresh (array (cons v vs)) = load_entries fresh 0 (cons v vs)
load_inverters fresh v = if truthy v then none else some (default_entry (fresh 0) ∷ [])

pub load_gateway_list : Items → List Fields
unfolding overlay
load_gateway_list nil = []
load_gateway_list (cons (object raw) rest) = overlay default_gateway raw ∷ load_gateway_list rest
load_gateway_list (cons _ rest) = load_gateway_list rest

pub load_gateway_types : Fields → Dict (List Fields)
unfolding load_gateway_list
load_gateway_types end = []
load_gateway_types (field t (array gws) rest) = (t, load_gateway_list gws) ∷ load_gateway_types rest
load_gateway_types (field t _ rest) = load_gateway_types rest

-- `data.get(key, {})`, whose `items` is taken: none for a value that is no dict.
abbrev pub dict_at : String → Fields → Option Fields
dict_at key fs = if has_key key fs then as_dict (get key fs) else some end
  where
    as_dict : Value → Option Fields
    as_dict (object gs) = some gs
    as_dict _ = none

pub load_section : Fields → String → Fields → Option Fields
unfolding overlay
load_section defaults key fs = and_then (dict_at key fs) λ raw. some (overlay defaults raw)

-- Behind the reading of the file: none is an AttributeError or a TypeError.
pub load_document : (ℕ → String) → Fields → Option Config
unfolding load_inverters load_gateway_types load_section
load_document fresh fs = and_then (load_inverters fresh (get "inverters" fs)) λ inverters.
    and_then (dict_at "gateways" fs) λ gateways.
      and_then (load_section default_proxy "proxy" fs) λ proxy.
        and_then (load_section default_night_mode "night_mode" fs) λ night_mode.
          and_then (load_section default_webapp "webapp" fs) λ webapp.
            and_then (load_section default_venus "venus" fs) λ venus.
              and_then (load_section default_scanner "scanner" fs) λ scanner.
                and_then (load_section default_mqtt_publish "mqtt_publish" fs) λ mqtt_publish.
                  and_then (load_section default_virtual_inverter "virtual_inverter" fs)
                    λ virtual_inverter. some (record {
                      inverters = inverters;
                      gateways = load_gateway_types gateways;
                      proxy = proxy;
                      night_mode = night_mode;
                      webapp = webapp;
                      venus = venus;
                      scanner = scanner;
                      mqtt_publish = mqtt_publish;
                      virtual_inverter = virtual_inverter;
                      log_level =
                          if has_key "log_level" fs then get "log_level" fs else text "INFO";
                    })

-- `load_config`; none is an exception, as of a file that is no YAML or whose document is no dict.
unfoldable pub load_config : (ℕ → String) → YamlFile → Option Config
unfolding load_document
load_config fresh missing = load_document fresh end
load_config fresh broken = none
load_config fresh (parsed (object fs)) = load_document fresh fs
load_config fresh (parsed v) = if truthy v then none else load_document fresh end

pub entries_value : List Fields → Items
entries_value [] = nil
entries_value (e ∷ es) = cons (object e) (entries_value es)

pub gateways_value : Dict (List Fields) → Fields
unfolding entries_value
gateways_value [] = end
gateways_value ((t, gws) ∷ rest) = field t (array (entries_value gws)) (gateways_value rest)

-- `asdict(config)`
pub asdict : Config → Fields
unfolding entries_value gateways_value
asdict c = field "inverters" (array (entries_value c.inverters)) (
    field "gateways" (object (gateways_value c.gateways)) (
      field "proxy" (object c.proxy) (
        field "night_mode" (object c.night_mode) (
          field "webapp" (object c.webapp) (
            field "venus" (object c.venus) (
              field "scanner" (object c.scanner) (
                field "mqtt_publish" (object c.mqtt_publish) (
                  field "virtual_inverter" (object c.virtual_inverter)
                    (field "log_level" c.log_level end)))))))))

-- `save_config`, given whether the write succeeds; a failed one leaves the file and raises.
unfoldable pub save_config : Bool → Config → YamlFile → YamlFile
unfolding asdict
save_config true c f = parsed (object (asdict c))
save_config false c f = f
