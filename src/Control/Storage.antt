-- ===== src/Control/Storage.antt =====
-- The files of control.py: last_limit.json, ui_state.json and, through state_file.py, state.json.
-- `none` stands for a file that is missing or holds no JSON; a key that the file may lack is an
-- `Option`. The first two are opened with mode "w", which empties them before they are written.
pub mod Recovery
use pv_inverter_master.Base.{
  ℕ, ◌+◌, ◌-◌, ◌*◌, ◌≡◌, Bool, true, false, ◌&&◌, Option, none, some, ltb, ◌==◌, if◌then◌else◌,
  Dict, String, lookup, insert, ℤ,
}
use pv_inverter_master.StateFile
use pv_inverter_master.StateFile.{FileBody}
use pv_inverter_master.Control.{
  ControlState, Source, unset, venus_os, webapp, Clock, initial, device_clamp, wmaxlimpct_sf,
}

pub record LastLimit : Type 0 where
  pub raw : Option ℕ
  pub source : Option Source
  pub ts : Option ℕ

pub record UiState : Type 0 where
  pub clamp_min_pct : Option ℕ
  pub clamp_max_pct : Option ℕ
  pub device_clamps : Option (Dict (ℕ × ℕ))
  pub wmaxlim_ena : Option ℕ
  pub wmaxlimpct_raw : Option ℕ
  pub last_source : Option Source
  pub is_locked : Option Bool
  pub lock_ts : Option ℕ

-- How a write of such a file ends: it is complete, or its OSError is swallowed: of the opening, which
-- leaves the file, or of the writing, when what was there is lost. A part of the text is no JSON.
pub data FileWrite : Type 0 where
  complete unopened truncated : FileWrite

unfoldable pub overwrite {ℓ} : {A : Type ℓ} → FileWrite → A → Option A → Option A
overwrite complete new old = some new
overwrite unopened new old = old
overwrite truncated new old = none

pub record Disk : Type 0 where
  pub last_limit : Option LastLimit
  pub ui_state : Option UiState
  pub state_json : FileBody
  pub last_limit_write : FileWrite
  pub ui_state_write : FileWrite
  pub state_json_writable : Bool

-- `data.get(key, d)`
abbrev pub or_default {ℓ} : {A : Type ℓ} → A → Option A → A
or_default d none = d
or_default d (some a) = a

abbrev pub is_venus : Option Source → Bool
is_venus (some venus_os) = true
is_venus _ = false

-- `age < 300` for `age = time.time() - ts`, in milliseconds.
abbrev pub is_recent : ℕ → ℕ → Bool
is_recent ts now = ltb now (ts + 300000)

-- `_load_last_limit` at a file that was read. Without `raw` the KeyError is caught, and nothing is set.
restore_limit : LastLimit → Option ℕ → Clock → ControlState → ControlState
restore_limit f none now c = c
restore_limit f (some raw) now c =
    if is_recent (or_default 0 f.ts) now.wall && is_venus f.source
    then record c {
      wmaxlimpct_raw = raw;
      wmaxlim_ena = 1;
      last_source = venus_os;
      last_change_ts = or_default 0 f.ts;
    }
    else c

load_last_limit : Option LastLimit → Clock → ControlState → ControlState
unfolding restore_limit
load_last_limit none now c = c
load_last_limit (some f) now c = restore_limit f f.raw now c

-- The parts of `_load_ui_state`: the clamps, the limit of the web application, the lock.
restore_clamps : UiState → ControlState → ControlState
restore_clamps f c = record c {
  clamp_min_pct = or_default 0 f.clamp_min_pct;
  clamp_max_pct = or_default 100 f.clamp_max_pct;
  device_clamps = or_default initial.device_clamps f.device_clamps;
}

restore_setpoint : UiState → ControlState → ControlState
restore_setpoint f c =
    if or_default 0 f.wmaxlim_ena == 1 && ltb 0 (or_default 0 f.wmaxlimpct_raw)
    then record c {
      wmaxlim_ena = 1;
      wmaxlimpct_raw = or_default 0 f.wmaxlimpct_raw;
      last_source = or_default webapp f.last_source;
    }
    else c

-- `remaining = 900 - (time.time() - lock_ts)`, positive just where the test passes.
restore_lock : UiState → Clock → ControlState → ControlState
restore_lock f now c =
    let ts = or_default 0 f.lock_ts in
    if or_default false f.is_locked && ltb 0 ts && ltb now.wall (ts + 900000)
    then record c { is_locked = true; lock_expires_at = some (now.mono + (ts + 900000 - now.wall)) }
    else c

load_ui_state : Option UiState → Clock → ControlState → ControlState
unfolding restore_clamps restore_setpoint restore_lock
load_ui_state none now c = c
load_ui_state (some f) now c = restore_lock f now (restore_setpoint f (restore_clamps f c))

-- `ControlState.__init__`
unfoldable pub boot : Disk → Clock → ControlState
unfolding load_ui_state load_last_limit
boot d now = load_last_limit d.last_limit now (load_ui_state d.ui_state now initial)

unfoldable pub save_ui_state : Clock → ControlState → Disk → Disk
unfolding overwrite
save_ui_state now c d =
    let state : UiState = record {
      clamp_min_pct = some c.clamp_min_pct;
      clamp_max_pct = some c.clamp_max_pct;
      device_clamps = some c.device_clamps;
      wmaxlim_ena = some c.wmaxlim_ena;
      wmaxlimpct_raw = some c.wmaxlimpct_raw;
      last_source = some c.last_source;
      is_locked = some c.is_locked;
      lock_ts = some (if c.is_locked then now.wall else 0);
    } in
    record d { ui_state = overwrite d.ui_state_write state d.ui_state }

write_last_limit : Clock → ControlState → Disk → Disk
unfolding overwrite
write_last_limit now c d =
    let limit : LastLimit = record {
      raw = some c.wmaxlimpct_raw;
      source = some c.last_source;
      ts = some now.wall;
    } in
    record d { last_limit = overwrite d.last_limit_write limit d.last_limit }

-- `save_last_limit`: both files, each on its own. The night mode of state.json is kept.
unfoldable pub save_last_limit : Clock → ControlState → Disk → Disk
unfolding write_last_limit StateFile.load_state StateFile.save_state
save_last_limit now c d =
    let d' = write_last_limit now c d in
    let cur = StateFile.load_state d'.state_json in
    let next = record cur {
      power_limit_pct = some c.wmaxlimpct_raw;
      power_limit_set_at = some now.wall;
    } in
    record d' { state_json = (StateFile.save_state d'.state_json_writable next d'.state_json).0 }

-- `set_device_clamp`
unfoldable pub set_device_clamp : String → ℤ → ℤ → Clock → ControlState → Disk → ControlState × Disk
set_device_clamp id lo hi now c d =
    let c' = record c { device_clamps = insert id (device_clamp lo hi) c.device_clamps } in
    (c', save_ui_state now c' d)

found_clamp : Option (ℕ × ℕ) → String → Clock → ControlState → Disk → (ℕ × ℕ) × ControlState × Disk
found_clamp (some pair) id now c d = (pair, c, d)
found_clamp none id now c d =
    let c' = record c { device_clamps = insert id (0, 100) c.device_clamps } in
    ((0, 100), c', save_ui_state now c' d)

-- `get_device_clamp`; a device without an entry gets (0, 100), which is stored and saved.
unfoldable pub get_device_clamp :
    String → Clock → ControlState → Disk → (ℕ × ℕ) × ControlState × Disk
unfolding found_clamp
get_device_clamp id now c d = found_clamp (lookup id c.device_clamps) id now c d
