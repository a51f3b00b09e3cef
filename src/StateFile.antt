-- ===== src/StateFile.antt =====
-- src/pv_inverter_proxy/state_file.py: the state that survives a restart. What `json.loads` makes of
-- the file's text is a value of `FileBody`; a write that raises leaves the file as it was, since the
-- file is replaced whole.
use pv_inverter_master.Base.{
  ℕ, ◌+◌, ◌*◌, ◌≡◌, refl, Bool, true, false, Option, none, some, ◌==◌, ltb, if◌then◌else◌,
}

pub record PersistedState : Type 0 where
  pub power_limit_pct : Option ℕ
  pub power_limit_set_at : Option ℕ
  pub night_mode_active : Bool
  pub night_mode_set_at : Option ℕ

abbrev pub defaults : PersistedState
defaults = record {
  power_limit_pct = none;
  power_limit_set_at = none;
  night_mode_active = false;
  night_mode_set_at = none;
}

-- `object` has the schema version, if there is one, and the known fields.
pub data FileBody : Type 0 where
  missing unreadable corrupt other_value : FileBody
  object : Option ℕ → PersistedState → FileBody

unfoldable pub load_state : FileBody → PersistedState
load_state (object (some v) s) = if v == 1 then s else defaults
load_state _ = defaults

-- `save_state`: the new file, and whether the call returned. `writable` says whether the writes
-- succeed.
unfoldable pub save_state : Bool → PersistedState → FileBody → FileBody × Bool
save_state writable s old = if writable then (object (some 1) s, true) else (old, false)

abbrev age_below : Option ℕ → Option ℕ → ℕ → ℕ → Bool
age_below (some _) (some set_at) timeout now = ltb (now * 2) (set_at * 2 + timeout)
age_below _ _ timeout now = false

-- `is_power_limit_fresh`: `now - set_at < timeout / 2`, without the division.
unfoldable pub is_power_limit_fresh : PersistedState → ℕ → ℕ → Bool
is_power_limit_fresh s timeout now = age_below s.power_limit_pct s.power_limit_set_at timeout now

-- What is saved is loaded again, and a failed write leaves what was there.
pub load_state-save_state :
    (writable : Bool) (s : PersistedState) (old : FileBody)
    → load_state (save_state writable s old).0 ≡ (if writable then s else load_state old)
unfolding load_state save_state
load_state-save_state true s old = refl
load_state-save_state false s old = refl
