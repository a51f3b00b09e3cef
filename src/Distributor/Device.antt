-- ===== src/Distributor/Device.antt =====
-- The devices of the distributor, `sync_devices`, and the predicates on them.
use pv_inverter_master.Base.{
  ℕ, String, Bool, true, false, ◌&&◌, Option, none, some, List, [], ◌∷◌, ◌++◌, ltb, if◌then◌else◌,
  str_eq, Dict, lookup,
}
use pv_inverter_master.Connection.{ConnectionState, is_connected}
use pv_inverter_master.Throttle.{ThrottleMode, binary, Ratio, ThrottleCaps, compute_throttle_score}

-- The fields of `InverterEntry` that the distributor reads. Rated power is in watts, and not negative.
pub record Entry : Type 0 where
  pub enabled : Bool
  pub aggregate : Bool
  pub throttle_enabled : Bool
  pub rated_power : ℕ
  pub dead_time : ℕ

-- `DeviceLimitState`. `caps` is what the plugin declares, `conn` the state of the connection manager.
pub record Device : Type 0 where
  pub device_id : String
  pub entry : Entry
  pub caps : Option ThrottleCaps
  pub conn : Option ConnectionState
  pub current_limit : ℕ
  pub last_write : Option ℕ
  pub pending_limit : Option ℕ
  pub is_online : Bool
  pub relay_on : Bool
  pub last_toggle : Option ℕ
  pub startup_until : ℕ
  pub target_power : Option ℕ
  pub target_set : Option ℕ
  pub measured_response_time : Option Ratio
  pub samples : List ℕ

-- A device of the registry: its entry, its plugin's capabilities, its connection manager's state.
pub record Managed : Type 0 where
  pub entry : Entry
  pub caps : Option ThrottleCaps
  pub conn : Option ConnectionState

abbrev pub online_of : Option ConnectionState → Bool
online_of none = true
online_of (some s) = is_connected s

abbrev pub fresh : String → Managed → Device
fresh id m = record {
  device_id = id;
  entry = m.entry;
  caps = m.caps;
  conn = m.conn;
  current_limit = 1000;
  last_write = none;
  pending_limit = none;
  is_online = true;
  relay_on = true;
  last_toggle = none;
  startup_until = 0;
  target_power = none;
  target_set = none;
  measured_response_time = none;
  samples = [];
}

unfoldable pub find : String → List Device → Option Device
find id [] = none
find id (d ∷ ds) = if str_eq d.device_id id then some d else find id ds

-- The devices that are still managed, with their references renewed.
keep_managed : Dict Managed → List Device → List Device
keep_managed managed [] = []
keep_managed managed (d ∷ ds) = elim (lookup d.device_id managed) [
  | none ↦ keep_managed managed ds
  | some m ↦ record d { entry = m.entry; caps = m.caps; conn = m.conn } ∷ keep_managed managed ds
]

-- The managed devices that are new.
add_new : Dict Managed → List Device → List Device
add_new [] known = []
add_new ((id, m) ∷ ms) known = elim (find id known) [
  | none ↦ fresh id m ∷ add_new ms known
  | some _ ↦ add_new ms known
]

set_online : List Device → List Device
set_online [] = []
set_online (d ∷ ds) = record d { is_online = online_of d.conn } ∷ set_online ds

unfoldable pub sync_devices : Dict Managed → List Device → List Device
unfolding keep_managed add_new set_online find
sync_devices managed ds = set_online (keep_managed managed ds ++ add_new managed ds)

abbrev is_binary_mode : ThrottleMode → Bool
is_binary_mode binary = true
is_binary_mode _ = false

abbrev pub is_binary_caps : Option ThrottleCaps → Bool
is_binary_caps none = false
is_binary_caps (some c) = is_binary_mode c.mode

-- `_is_binary_device`
unfoldable pub is_binary_device : Device → Bool
is_binary_device d = is_binary_caps d.caps

-- `_is_in_startup`
unfoldable pub is_in_startup : ℕ → Device → Bool
unfolding is_binary_device
is_in_startup now d = is_binary_device d && ltb now d.startup_until

-- `_is_throttle_eligible`
unfoldable pub is_throttle_eligible : Device → Bool
is_throttle_eligible d =
    d.entry.aggregate && d.entry.throttle_enabled && d.is_online && ltb 0 d.entry.rated_power

abbrev with_measured : Option Ratio → ThrottleCaps → ThrottleCaps
with_measured none c = c
with_measured (some r) c = record c { response_time = r }

abbrev score_of : Option ThrottleCaps → Option Ratio → ℕ
score_of none measured = 0
score_of (some c) measured = compute_throttle_score (with_measured measured c)

-- `_effective_score`
unfoldable pub effective_score : Device → ℕ
effective_score d = score_of d.caps d.measured_response_time
