-- ===== src/Webapp/Inverters.antt =====
-- `inverters_add_handler`, `inverters_update_handler`, `inverters_delete_handler` and `_reconfigure_active` of
-- src/pv_inverter_proxy/webapp.py, over the configuration and the device registry. `ipaddress` and a fresh identifier
-- are inputs, as is whether the configuration can be written. The messages to the WebSocket clients are
-- left out.
pub mod Rejected
pub mod Deleted
pub mod Unknown
mod Tests
use pv_inverter_master.Base.{
  ℕ, String, Bool, true, false, not, ◌&&◌, ◌||◌, Option, none, some, List, [], ◌∷◌, ◌++◌, ◌==◌,
  str_eq, if◌then◌else◌, pos, length,
}
use pv_inverter_master.Json.{
  Value, null, boolean, integer, fraction, text, array, object, Fields, end, field, get, has_key,
  put, truthy,
}
use pv_inverter_master.Config.{Config, default_entry, save_config}
use pv_inverter_master.Config.Checks.{
  is_text, is_enabled, get_active_inverter, Validity, valid, type_error, validate_inverter_config,
}
use pv_inverter_master.Registry.{DeviceRegistry, start_device, stop_device, stop_all, find_entry}
use pv_inverter_master.Updater.Config.{YamlFile}

-- What the handlers change; the registry reads the same configuration.
pub record Plant : Type 0 where
  pub config : Config
  pub config_file : YamlFile
  pub registry : DeviceRegistry
  pub polling_paused : Bool

-- 200 or 201, 400, 404, and the 500 of an exception.
pub data Answer : Type 0 where
  done bad_request not_found crashed : Answer

-- The `action` of `_reconfigure_active`.
pub data Action : Type 0 where
  start stop disable : Action

abbrev pub has_active : List Fields → Bool
has_active es = elim (get_active_inverter es) [ none ↦ false | some e ↦ true ]

-- Polling pauses when no device is managed and no entry is enabled.
abbrev pub settle_pause : Plant → Plant
settle_pause p = record p {
  polling_paused = length p.registry.managed == 0 && not (has_active p.config.inverters);
}

abbrev pub with_registry : DeviceRegistry → Plant → Plant
with_registry r p = record p { registry = r }

abbrev pub started : DeviceRegistry × Bool → Plant → Plant × Bool
started (r, true) p = (settle_pause (with_registry r p), true)
started (r, false) p = (with_registry r p, false)

module _ (millis : Value → ℕ) where
  -- `_reconfigure_active` for a device, and whether it returns.
  unfoldable pub reconfigure_active : Action → String → Plant → Plant × Bool
  reconfigure_active start id p = started (start_device millis p.config id p.registry) p
  reconfigure_active stop id p = (settle_pause (with_registry (stop_device id p.registry) p), true)
  reconfigure_active disable id p =
      (settle_pause (with_registry (stop_device id p.registry) p), true)

abbrev pub with_inverters : List Fields → Plant → Plant
with_inverters es p = record p { config = record p.config { inverters = es } }

abbrev pub saved : Bool → Plant → Plant
saved writable p = record p { config_file = save_config writable p.config p.config_file }

abbrev pub answer_of : Plant × Bool → Plant × Answer
answer_of (p, true) = (p, done)
answer_of (p, false) = (p, crashed)

abbrev pub given : String → Value → Fields → Value
given key d body = if has_key key body then get key body else d

-- The entry that the body of an addition describes.
unfoldable pub entry_of : String → Fields → Fields
entry_of id body =
    let kind = given "type" (text "solaredge") body in
    let set = λ (key : String) (v : Value) (e : Fields). put key v e in
    let keep = λ (key : String) (e : Fields). put key (given key (get key e) body) e in
    let gateway = if is_text "opendtu" kind then get "host" body else text "" in
    let throttled = not (is_text "shelly" kind || is_text "sungrow" kind) in
    keep "aggregate" (
      set "throttle_enabled" (given "throttle_enabled" (boolean throttled) body) (
        keep "panel_power_wp" (
          keep "rated_power" (
            keep "shelly_gen" (
              keep "gateway_password" (
                keep "gateway_user" (
                  set "gateway_host" (given "gateway_host" gateway body) (
                    set "type" kind (
                      keep "name" (
                        keep "firmware_version" (
                          keep "serial" (
                            keep "model" (
                              keep "manufacturer" (
                                keep "enabled" (
                                  keep "unit_id" (
                                    keep "port" (
                                      set "host" (get "host" body)
                                        (default_entry id))))))))))))))))))

abbrev pub refusal : Validity → Answer
refusal type_error = crashed
refusal _ = bad_request

abbrev pub is_valid : Validity → Bool
is_valid valid = true
is_valid _ = false

module _ (millis : Value → ℕ) (is_address : Value → Bool) where
  -- A save that fails raises, when the list is changed already.
  unfoldable pub add_entry : Bool → String → Fields → Plant → Plant × Answer
  add_entry writable id e p =
      let p' = saved writable (with_inverters (p.config.inverters ++ e ∷ []) p) in
      if not writable
      then (p', crashed)
      else if is_enabled e
      then answer_of (reconfigure_active millis start id p')
      else (p', done)

  pub add_body : Bool → String → Fields → Plant → Plant × Answer
  unfolding add_entry entry_of
  add_body writable id body p =
      let check =
        validate_inverter_config is_address (get "host" body)
          (given "port" (integer (pos 1502)) body) (given "unit_id" (integer (pos 1)) body) in
      if not (has_key "host" body)
      then (p, bad_request)
      else if is_valid check
      then add_entry writable id (entry_of id body) p
      else (p, refusal check)

  -- `inverters_add_handler`; a body of none is no JSON, and one that is no dict and no list raises a
  -- TypeError that is caught, as that of a list is.
  unfoldable pub inverters_add_handler : Bool → String → Option Value → Plant → Plant × Answer
  unfolding add_body
  inverters_add_handler writable id (some (object body)) p = add_body writable id body p
  inverters_add_handler writable id _ p = (p, bad_request)

-- The fields that an update can set, in the order in which it sets them.
abbrev pub updatable : List String
updatable =
    "host" ∷ "port" ∷ "unit_id" ∷ "enabled" ∷ "manufacturer" ∷ "model" ∷ "serial"
    ∷ "firmware_version" ∷ "rated_power" ∷ "panel_power_wp" ∷ "name" ∷ "gateway_host"
    ∷ "gateway_user" ∷ "gateway_password" ∷ "throttle_order" ∷ "throttle_enabled" ∷ "aggregate" ∷ []

pub set_fields : List String → Fields → Fields → Fields
set_fields [] body e = e
set_fields (k ∷ ks) body e = set_fields ks body (if has_key k body then put k (get k body) e else e)

-- The first entry with the identifier is changed in place.
pub replace_entry : String → Fields → List Fields → List Fields
replace_entry id e [] = []
replace_entry id e (f ∷ fs) =
    let rest = replace_entry id e fs in if is_text id (get "id" f) then e ∷ fs else f ∷ rest

module _ (millis : Value → ℕ) (is_address : Value → Bool) where
  -- The transition from `was_enabled` to the entry's state.
  pub follow : Bool → Bool → String → Plant → Plant × Bool
  follow true false id p = reconfigure_active millis disable id p
  follow false true id p = reconfigure_active millis start id p
  follow true true id p = reconfigure_active millis start id (reconfigure_active millis stop id p).0
  follow false false id p = (p, true)

  pub update_entry : Bool → String → Fields → Fields → Plant → Plant × Answer
  unfolding follow set_fields replace_entry
  update_entry writable id body e p =
      let e' = set_fields updatable body e in
      let p' = with_inverters (replace_entry id e' p.config.inverters) p in
      let check =
        validate_inverter_config is_address (get "host" e') (get "port" e') (get "unit_id" e') in
      if not (is_valid check)
      then (p', refusal check)
      else if writable
      then answer_of (follow (is_enabled e) (is_enabled e') id (saved true p'))
      else (p', crashed)

  pub update_found : Bool → String → Option Value → Option Fields → Plant → Plant × Answer
  unfolding update_entry
  update_found writable id body none p = (p, not_found)
  update_found writable id (some (object body)) (some e) p = update_entry writable id body e p
  update_found writable id none (some e) p = (p, bad_request)
  update_found writable id (some v) (some e) p = (p, crashed)

  -- `inverters_update_handler`. A body that is no dict is not modelled beyond an exception.
  unfoldable pub inverters_update_handler : Bool → String → Option Value → Plant → Plant × Answer
  unfolding update_found
  inverters_update_handler writable id body p =
      update_found writable id body (find_entry id p.config.inverters) p

unfoldable pub without_entry : String → List Fields → List Fields
without_entry id [] = []
without_entry id (e ∷ es) =
    let rest = without_entry id es in if is_text id (get "id" e) then rest else e ∷ rest

module _ (millis : Value → ℕ) where
  -- `inverters_delete_handler`
  unfoldable pub inverters_delete_handler : Bool → String → Plant → Plant × Answer
  inverters_delete_handler writable id p =
      let es = without_entry id p.config.inverters in
      if length es == length p.config.inverters
      then (with_inverters es p, not_found)
      else if writable
      then answer_of (reconfigure_active millis stop id (saved true (with_inverters es p)))
      else (with_inverters es p, crashed)
