-- ===== src/Webapp/Clamp/Ceiling.antt =====
-- What a clamp of the virtual inverter does.
use pv_inverter_master.Base.{
  ℕ, ◌≡◌, ◌≢◌, refl, ◌≤◌, ◌<◌, ◌⊎◌, false, ◌&&◌, some, [], ◌∷◌, ◌++◌, leb, ltb, ◌==◌, Bool-cases,
  inl, inr, arith, pos,
}
use pv_inverter_master.Json.{text, object, Fields, get}
use pv_inverter_master.Control.{
  ControlState, Clock, webapp, is_enabled, update_wmaxlim_ena, update_wmaxlimpct, wmaxlimpct_float,
}
use pv_inverter_master.Control.Storage.{set_device_clamp}
use pv_inverter_master.Webapp.{Server, success}
use pv_inverter_master.Webapp.Clamp.{
  Devices, clamp_control, clamp_virtual, set_clamp, read_pct, with_clamps, clamp_of,
  power_clamp_handler,
}

-- The limit that a control state holds after the clamps `lo` and `hi`.
abbrev pub Ceiling : ℕ → ℕ → ControlState → Type 0
Ceiling lo hi c =
    (lo ≡ 0) × (100 ≤ hi) × (c.wmaxlimpct_raw ≡ 100) × (c.wmaxlim_ena ≡ 0)
    ⊎ ((lo ≢ 0) ⊎ (hi < 100)) × (c.wmaxlimpct_raw ≡ hi) × (c.wmaxlim_ena ≡ 1)

partial : (lo hi : ℕ) → (lo == 0 && leb 100 hi) ≡ false → (lo ≢ 0) ⊎ (hi < 100)
partial lo hi h = elim (Bool-cases (ltb hi 100)) [
  | inl below ↦ inr (ground arith)
  | inr full ↦ inl (λ e. ground arith)
]

clamp_control-Ceiling :
    (lo hi : ℕ) (c : ControlState)
    → let c' = clamp_control lo hi c in
      Ceiling lo hi c' × (c'.clamp_min_pct ≡ lo) × (c'.clamp_max_pct ≡ hi)
unfolding clamp_control update_wmaxlim_ena update_wmaxlimpct
clamp_control-Ceiling lo hi c = elim (Bool-cases (lo == 0 && leb 100 hi)) [
  | inl full ↦ rw full (inl (ground (arith, full), ground (arith, full), refl, refl), refl, refl)
  | inr part ↦ rw part (inr (partial lo hi part, refl, refl), refl, refl)
]

-- A clamp of the virtual inverter is the limit: from 0 to 100 it releases, with 100 % stored and not enabled,
-- and any other enables its upper end as the limit. The clamps are stored as they are, even when
-- the lower end is above the upper one; the limit belongs to the web application
-- and is handed to the distributor once, and no plugin is called.
pub virtual_clamp :
    (e : Devices) (fs : Fields) (lo hi : ℕ) (now : Clock) (s : Server)
    → get "device_id" fs ≡ text "virtual"
    → read_pct e "min_pct" 0 fs ≡ some lo
    → read_pct e "max_pct" 100 fs ≡ some hi
    → let (s', status) = power_clamp_handler e (some (object fs)) now s in
      (status ≡ success)
      × Ceiling lo hi s'.control
      × (s'.control.clamp_min_pct ≡ lo)
      × (s'.control.clamp_max_pct ≡ hi)
      × (s'.control.last_source ≡ webapp)
      × (s'.distributed
          ≡ s.distributed
            ++ record { limit_pct = wmaxlimpct_float s'.control; enable = is_enabled s'.control }
              ∷ [])
      × (s'.commands ≡ s.commands)
unfolding power_clamp_handler clamp_of with_clamps set_clamp clamp_virtual set_device_clamp
virtual_clamp e fs lo hi now s id low high =
    let stored : ControlState =
      (set_device_clamp "virtual" (pos lo) (pos hi) now s.control s.disk).0 in
    let c = clamp_control-Ceiling lo hi stored in
    rw (id, low, high) (refl, c.0, c.1, c.2, refl, refl, refl)
