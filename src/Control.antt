-- ===== src/Control.antt =====
-- src/pv_inverter_proxy/control.py: the Model 123 control state. Times are whole milliseconds, of
-- the wall clock (`time.time`) or of the monotonic one; percentages and registers are natural
-- numbers, as WMAXLIMPCT_SF is 0 and Modbus registers are uint16.
pub mod Validity
pub mod Locking
pub mod Override
pub mod Storage
pub mod Refresh
mod Tests
use pv_inverter_master.Base.{
  ℕ, zero, suc, ◌+◌, ◌-◌, ◌*◌, ◌^◌, ◌≤◌, ◌<◌, min, max, String, Bool, true, false, ◌&&◌, Option,
  none, some, List, [], ◌∷◌, ltb, leb, ◌==◌, if◌then◌else◌, replicate, set, ℤ, pos, negsuc, ltb_ℤ,
  min_ℤ, max_ℤ, pos_part, Dict,
}
use pv_inverter_master.Sunspec.{controls_addr, controls_did, controls_length}

abbrev pub model_123_start : ℕ
model_123_start = controls_addr

abbrev pub model_123_end : ℕ
model_123_end = controls_addr + 2 + controls_length - 1

abbrev pub wmaxlimpct_offset : ℕ
wmaxlimpct_offset = 5

abbrev pub wmaxlim_ena_offset : ℕ
wmaxlim_ena_offset = 9

abbrev pub wmaxlimpct_sf : ℕ
wmaxlimpct_sf = 0

-- _SUNSPEC_NAN_UINT16
abbrev pub sunspec_nan : ℕ
sunspec_nan = 0x7FC0

pub data InvalidValue : Type 0 where
  nan_encoding negative exceeds_100 : InvalidValue

-- `validate_wmaxlimpct` at the default scale factor, which is the only one that is passed;
-- `none` is "valid".
unfoldable pub validate_wmaxlimpct : ℤ → Option InvalidValue
validate_wmaxlimpct (negsuc _) = some negative
validate_wmaxlimpct (pos raw) =
    let pct = raw * 10 ^ wmaxlimpct_sf in
    if raw == sunspec_nan then some nan_encoding else if ltb 100 pct then some exceeds_100 else none

-- The values of `last_source`.
pub data Source : Type 0 where
  unset venus_os webapp : Source

pub record Clock : Type 0 where
  pub wall : ℕ
  pub mono : ℕ

-- `scale_factor` is the constant WMAXLIMPCT_SF.
pub record ControlState : Type 0 where
  pub wmaxlim_ena : ℕ
  pub wmaxlimpct_raw : ℕ
  pub last_source : Source
  pub last_change_ts : ℕ
  pub webapp_revert_at : Option ℕ
  pub is_locked : Bool
  pub lock_expires_at : Option ℕ
  pub clamp_min_pct : ℕ
  pub clamp_max_pct : ℕ
  pub device_clamps : Dict (ℕ × ℕ)

-- The fields that `__init__` sets before it loads the files.
abbrev pub initial : ControlState
initial = record {
  wmaxlim_ena = 0;
  wmaxlimpct_raw = 0;
  last_source = unset;
  last_change_ts = 0;
  webapp_revert_at = none;
  is_locked = false;
  lock_expires_at = none;
  clamp_min_pct = 0;
  clamp_max_pct = 100;
  device_clamps = [];
}

unfoldable pub is_enabled : ControlState → Bool
is_enabled c = c.wmaxlim_ena == 1

unfoldable pub wmaxlimpct_float : ControlState → ℕ
wmaxlimpct_float c = c.wmaxlimpct_raw * 10 ^ wmaxlimpct_sf

unfoldable pub update_wmaxlimpct : ℕ → ControlState → ControlState
update_wmaxlimpct raw c = record c { wmaxlimpct_raw = raw }

unfoldable pub update_wmaxlim_ena : ℕ → ControlState → ControlState
update_wmaxlim_ena value c = record c { wmaxlim_ena = value }

unfoldable pub get_model_123_readback : ControlState → List ℕ
get_model_123_readback c =
    let header = set (set (replicate 26 0) 0 controls_did) 1 controls_length in
    set (set header wmaxlimpct_offset c.wmaxlimpct_raw) wmaxlim_ena_offset c.wmaxlim_ena

-- `set_from_webapp`, with the revert timeout in milliseconds (300000 by default).
unfoldable pub set_from_webapp : ℕ → ℕ → ℕ → Clock → ControlState → ControlState
set_from_webapp raw ena revert_timeout now c = record c {
  wmaxlimpct_raw = raw;
  wmaxlim_ena = ena;
  last_source = webapp;
  last_change_ts = now.wall;
  webapp_revert_at = some (now.mono + revert_timeout);
}

unfoldable pub set_from_venus_os : Clock → ControlState → ControlState
set_from_venus_os now c = record c {
  last_source = venus_os;
  last_change_ts = now.wall;
  webapp_revert_at = none;
}

-- `lock`; a duration of 0 is permanent, and others are capped at 15 minutes. The callers pass 0 and
-- 900 s, so a duration is never negative.
abbrev pub lock_cap : ℕ
lock_cap = 900000

unfoldable pub lock : ℕ → Clock → ControlState → ControlState
lock duration now c = record c {
  is_locked = true;
  lock_expires_at = if duration == 0 then none else some (now.mono + min duration lock_cap);
}

unfoldable pub unlock : ControlState → ControlState
unlock c = record c { is_locked = false; lock_expires_at = none }

abbrev pub has_passed : Option ℕ → ℕ → Bool
has_passed none now = false
has_passed (some deadline) now = leb deadline now

unfoldable pub check_lock_expiry : Clock → ControlState → ControlState × Bool
unfolding unlock
check_lock_expiry now c =
    if c.is_locked && has_passed c.lock_expires_at now.mono then (unlock c, true) else (c, false)

abbrev remaining_of : Bool → Option ℕ → ℕ → Option ℕ
remaining_of true (some deadline) now = some (deadline - now)
remaining_of _ _ now = none

-- The property `lock_remaining_s`; the subtraction that stops at 0 is its `max(0.0, …)`.
unfoldable pub lock_remaining : Clock → ControlState → Option ℕ
lock_remaining now c = remaining_of c.is_locked c.lock_expires_at now.mono

-- `is_model_123_address`. With `count` 0 at address 0 Python compares -1, and the answer is the same.
unfoldable pub is_model_123_address : ℕ → ℕ → Bool
is_model_123_address address count =
    leb address model_123_end && leb model_123_start (address + count - 1)

-- `max(0, min(100, pct))`
abbrev pub percent : ℤ → ℕ
percent z = pos_part (max_ℤ (pos 0) (min_ℤ (pos 100) z))

-- The pair that `set_device_clamp` stores.
unfoldable pub device_clamp : ℤ → ℤ → ℕ × ℕ
device_clamp lo hi =
    let lo' = percent lo in let hi' = percent hi in (if ltb hi' lo' then hi' else lo', hi')
