-- ===== src/Connection.antt =====
-- src/pv_inverter_proxy/connection.py: the reconnection backoff and night mode of one device.
-- Times and durations are whole milliseconds. `elapsed` is only compared with a positive bound, so
-- a subtraction that stops at 0 takes the branches that Python's takes at a negative difference.
pub mod Invariant
pub mod Traces
mod Tests
use pv_inverter_master.Base.{
  ℕ, suc, ◌+◌, ◌-◌, ◌*◌, ◌/◌, ◌%◌, min, Bool, true, false, not, ◌&&◌, Option, none, some, List, [],
  ◌∷◌, ltb, leb, if◌then◌else◌, replicate, set,
}
use pv_inverter_master.Sunspec.{inverter_did, inverter_length}

pub data ConnectionState : Type 0 where
  connected reconnecting night_mode : ConnectionState

abbrev pub is_connected : ConnectionState → Bool
is_connected connected = true
is_connected _ = false

abbrev pub is_night : ConnectionState → Bool
is_night night_mode = true
is_night _ = false

-- INITIAL_BACKOFF, MAX_BACKOFF, NIGHT_MODE_THRESHOLD and CONSECUTIVE_FAILURES_BEFORE_RECONNECTING.
abbrev pub initial_backoff : ℕ
initial_backoff = 5000

abbrev pub max_backoff : ℕ
max_backoff = 60000

abbrev pub night_mode_threshold : ℕ
night_mode_threshold = 300000

abbrev pub failures_before_reconnecting : ℕ
failures_before_reconnecting = 3

pub record ConnectionManager : Type 0 where
  pub poll_interval : ℕ
  pub backoff : ℕ
  pub first_failure_time : Option ℕ
  pub state : ConnectionState
  pub reconnected_from_night : Bool
  pub consecutive_failures : ℕ

-- `__init__`
unfoldable pub new : ℕ → ConnectionManager
new interval = record {
  poll_interval = interval;
  backoff = initial_backoff;
  first_failure_time = none;
  state = connected;
  reconnected_from_night = false;
  consecutive_failures = 0;
}

-- The property `reconnected_from_night`, which a read resets.
unfoldable pub take_reconnected : ConnectionManager → ConnectionManager × Bool
take_reconnected m = (record m { reconnected_from_night = false }, m.reconnected_from_night)

unfoldable pub sleep_duration : ConnectionManager → ℕ
sleep_duration m = if is_connected m.state then m.poll_interval else m.backoff

unfoldable pub on_poll_success : ConnectionManager → ConnectionManager
on_poll_success m = record m {
  backoff = initial_backoff;
  first_failure_time = none;
  consecutive_failures = 0;
  state = connected;
  reconnected_from_night = if is_night m.state then true else m.reconnected_from_night;
}

abbrev pub first_failure : Option ℕ → ℕ → ℕ
first_failure none now = now
first_failure (some t) now = t

-- The state after a failure, from the state, the time since the first one and the new count.
next_state : ConnectionState → ℕ → ℕ → ConnectionState
next_state s elapsed failures =
    if ltb night_mode_threshold elapsed && not (is_night s)
    then night_mode
    else if is_connected s && leb failures_before_reconnecting failures
    then reconnecting
    else s

unfoldable pub on_poll_failure : ℕ → ConnectionManager → ConnectionManager
unfolding next_state
on_poll_failure now m =
    let start = first_failure m.first_failure_time now in
    let failures = m.consecutive_failures + 1 in
    let s = next_state m.state (now - start) failures in
    record m {
      first_failure_time = some start;
      consecutive_failures = failures;
      state = s;
      backoff = if is_connected s then m.backoff else min (m.backoff * 2) max_backoff;
    }

-- `build_night_mode_inverter_registers`: 52 registers, energy at 26 and 27, status 4 at 40.
unfoldable pub night_mode_registers : ℕ → List ℕ
night_mode_registers last_energy_wh =
    let blank = set (set (replicate 52 0) 0 inverter_did) 1 inverter_length in
    let high = set blank 26 (last_energy_wh / 65536 % 65536) in
    set (set high 27 (last_energy_wh % 65536)) 40 4
