-- ===== src/Registry.antt =====
-- `DeviceRegistry` of src/pv_inverter_proxy/device_registry.py and `plugin_factory` of plugins/__init__.py. A poll
-- task is its number; it runs until it is cancelled, since the loop ends in no other way. Closing a
-- plugin raises no exception that the registry lets through. A poll interval is a YAML value, whose
-- milliseconds are a parameter.
pub mod Dicts
pub mod Tasks
pub mod Lifecycle
pub mod Stopped
pub mod Numbered
pub mod Leaks
pub mod Poll
mod Tests
use pv_inverter_master.Base.{
  ℕ, ◌+◌, String, Bool, true, false, not, ◌||◌, Option, none, some, List, [], ◌∷◌, ◌++◌, ◌==◌,
  str_eq, if◌then◌else◌, Dict, lookup, insert,
}
use pv_inverter_master.Json.{Value, text, Fields, get}
use pv_inverter_master.Config.{Config}
use pv_inverter_master.Config.Checks.{is_text, is_enabled, get_gateway_for_inverter}
use pv_inverter_master.Connection.{ConnectionManager, new}

-- The registers of a poll that is kept.
pub record PollData : Type 0 where
  pub common_registers : List ℕ
  pub inverter_registers : List ℕ

pub record DeviceState : Type 0 where
  pub success : ℕ
  pub total : ℕ
  pub conn_mgr : ConnectionManager
  pub last_poll_data : Option PollData

-- A managed device: its entry at the start, and its poll task.
pub record ManagedDevice : Type 0 where
  pub entry : Fields
  pub poll_task : ℕ

-- The registry with the devices of the application context, the poll tasks that run, each with its
-- device, the number of tasks created, and the devices whose plugin was closed.
pub record DeviceRegistry : Type 0 where
  pub managed : Dict ManagedDevice
  pub devices : Dict DeviceState
  pub running : List (ℕ × String)
  pub created : ℕ
  pub closed : List String

abbrev pub fresh_registry : DeviceRegistry
fresh_registry = record { managed = []; devices = []; running = []; created = 0; closed = [] }

-- `d.pop(key, None)` without its answer.
unfoldable pub remove {ℓ} : {V : Type ℓ} → String → Dict V → Dict V
remove key [] = []
remove key ((other, x) ∷ d) =
    let rest = remove key d in if str_eq other key then rest else (other, x) ∷ rest

-- The task is cancelled and awaited.
unfoldable pub cancel : ℕ → List (ℕ × String) → List (ℕ × String)
cancel t [] = []
cancel t ((u, id) ∷ ts) = let rest = cancel t ts in if u == t then rest else (u, id) ∷ rest

-- `_find_entry`
unfoldable pub find_entry : String → List Fields → Option Fields
find_entry id [] = none
find_entry id (e ∷ es) = if is_text id (get "id" e) then some e else find_entry id es

-- Whether `plugin_factory` knows the type; else it raises a ValueError.
abbrev pub is_known_type : Value → Bool
is_known_type t =
    is_text "solaredge" t || is_text "opendtu" t || is_text "shelly" t || is_text "sungrow" t

abbrev pub interval_of : Config → Option Fields → Value
interval_of c none = get "poll_interval" c.proxy
interval_of c (some g) = get "poll_interval" g

abbrev pub new_device_state : ℕ → DeviceState
new_device_state interval = record {
  success = 0;
  total = 0;
  conn_mgr = new interval;
  last_poll_data = none;
}

abbrev pub manage : Fields → ℕ → ManagedDevice
manage e task = record { entry = e; poll_task = task }

-- The registration of a device and the start of its task.
unfoldable pub launch : ℕ → String → Fields → DeviceRegistry → DeviceRegistry
launch interval id e r = record {
  managed = insert id (manage e r.created) r.managed;
  devices = insert id (new_device_state interval) r.devices;
  running = (r.created, id) ∷ r.running;
  created = r.created + 1;
  closed = r.closed;
}

module _ (millis : Value → ℕ) where
  unfoldable pub start_entry :
      Config → String → Option Fields → DeviceRegistry → DeviceRegistry × Bool
  unfolding launch
  start_entry c id none r = (r, true)
  start_entry c id (some e) r =
      if not (is_enabled e)
      then (r, true)
      else if is_known_type (get "type" e)
      then (launch (millis (interval_of c (get_gateway_for_inverter c e))) id e r, true)
      else (r, false)

  -- `start_device`, and whether it returns; else it raises the ValueError of an unknown type.
  unfoldable pub start_device : Config → String → DeviceRegistry → DeviceRegistry × Bool
  unfolding start_entry
  start_device c id r = start_entry c id (find_entry id c.inverters) r

unfoldable pub stop_managed : String → Option ManagedDevice → DeviceRegistry → DeviceRegistry
stop_managed id none r = r
stop_managed id (some m) r = record r {
  managed = remove id r.managed;
  devices = remove id r.devices;
  running = cancel m.poll_task r.running;
  closed = r.closed ++ id ∷ [];
}

unfoldable pub stop_device : String → DeviceRegistry → DeviceRegistry
unfolding stop_managed
stop_device id r = stop_managed id (lookup id r.managed) r

abbrev pub keys {ℓ} : {V : Type ℓ} → Dict V → List String
keys [] = []
keys ((k, x) ∷ d) = k ∷ keys d

pub stop_each : List String → DeviceRegistry → DeviceRegistry
stop_each [] r = r
stop_each (id ∷ ids) r = stop_each ids (stop_device id r)

unfoldable pub stop_all : DeviceRegistry → DeviceRegistry
unfolding stop_each
stop_all r = stop_each (keys r.managed) r

abbrev pub text_of : Value → String
text_of (text s) = s
text_of _ = ""

module _ (millis : Value → ℕ) where
  abbrev pub go_on :
      (DeviceRegistry × Bool) → (DeviceRegistry → DeviceRegistry × Bool) → DeviceRegistry × Bool
  go_on (r, true) next = next r
  go_on (r, false) next = (r, false)

  -- `start_all` over the entries; an exception ends it.
  unfoldable pub start_each : Config → List Fields → DeviceRegistry → DeviceRegistry × Bool
  start_each c [] r = (r, true)
  start_each c (e ∷ es) r =
      let started = start_device millis c (text_of (get "id" e)) r in
      go_on (if is_enabled e then started else (r, true)) (λ r'. start_each c es r')

  unfoldable pub start_all : Config → DeviceRegistry → DeviceRegistry × Bool
  unfolding start_each
  start_all c r = start_each c c.inverters r
