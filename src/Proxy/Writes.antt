-- ===== src/Proxy/Writes.antt =====
-- What the writes of Venus OS do to the control state.
use pv_inverter_master.Base.{
  ℕ, ◌+◌, ◌*◌, ◌≤◌, ◌<◌, ◌≡◌, ◌≢◌, refl, true, false, none, List, [], ◌∷◌, ◌++◌, ◌==◌, arith,
}
use pv_inverter_master.Control.{
  ControlState, Clock, venus_os, InvalidValue, model_123_start, wmaxlimpct_offset,
  wmaxlim_ena_offset, update_wmaxlimpct, update_wmaxlim_ena, set_from_venus_os, wmaxlimpct_float,
  is_enabled, get_model_123_readback,
}
use pv_inverter_master.Control.Storage.{save_last_limit}
use pv_inverter_master.Proxy.{
  Slave, ok, bad_enable, illegal, handle_write, clamp_limit, detect, in_maintenance,
  after_control_write, store_write, set_enable, distribute, set_limit,
}
use pv_inverter_master.Proxy.Dispatch.{valid, invalid, dispatched, other_register, lt→leb, gt→leb}

-- The address of the limit register, 40154, and of the enable register, 40158.
abbrev pub limit_addr : ℕ
limit_addr = model_123_start + wmaxlimpct_offset

abbrev pub enable_addr : ℕ
enable_addr = model_123_start + wmaxlim_ena_offset

distribute_present :
    (s : Slave)
    → s.has_distributor ≡ true
    → distribute s ≡ record s {
      distributed =
          s.distributed
          ++ record { limit_pct = wmaxlimpct_float s.control; enable = is_enabled s.control } ∷ [];
    }
unfolding distribute
distribute_present s d = ground arith

-- Outside maintenance and with a distributor, a value of at most 100 written to the limit register
-- becomes the clamped limit: enabled, owned by Venus OS, with no revert deadline, saved, shown in
-- the readback block, and handed to the distributor once, as its last call.
pub limit_written :
    (now : Clock) (v : ℕ) (vs : List ℕ) (s : Slave)
    → in_maintenance s.app ≡ false
    → s.has_distributor ≡ true
    → v ≤ 100
    → let (s', r) = handle_write now limit_addr (v ∷ vs) s in
      (r ≡ ok)
      × (s'.control.wmaxlimpct_raw ≡ clamp_limit s.control v)
      × (s'.control.wmaxlim_ena ≡ 1)
      × (s'.control.last_source ≡ venus_os)
      × (s'.control.webapp_revert_at ≡ none)
      × (s'.disk ≡ save_last_limit now s'.control s.disk)
      × (s'.cache.datablock
          ≡ s.cache.datablock
            ++ record { address = 40150; values = get_model_123_readback s'.control } ∷ [])
      × (s'.distributed
          ≡ s.distributed ++ record { limit_pct = clamp_limit s.control v; enable = true } ∷ [])
unfolding handle_write update_wmaxlimpct update_wmaxlim_ena set_from_venus_os wmaxlimpct_float
    is_enabled
limit_written now v vs s m d h =
    let s' : Slave = record s { app = detect true now s.app } in
    let unscaled : clamp_limit s.control v * 1 ≡ clamp_limit s.control v = omega arith in
    rw
      (
        dispatched now 5 v vs s (omega arith) m,
        valid v h,
        distribute_present (set_limit now v s') d,
      )
      (refl, refl, refl, refl, refl, refl, refl, rw unscaled)

-- The clamped limit is at least 1 and the lower clamp, and, when the clamps are ordered and the upper
-- one is not 0, at most the upper clamp; a request between the clamps, and not 0, is kept.
pub clamp_limit_bounds :
    (c : ControlState) (v : ℕ)
    → (1 ≤ clamp_limit c v)
      × (c.clamp_min_pct ≤ clamp_limit c v)
      × (c.clamp_min_pct ≤ c.clamp_max_pct
          → 1 ≤ c.clamp_max_pct
          → clamp_limit c v ≤ c.clamp_max_pct)
      × (1 ≤ v → c.clamp_min_pct ≤ v → v ≤ c.clamp_max_pct → clamp_limit c v ≡ v)
unfolding clamp_limit
clamp_limit_bounds c v = (omega arith, omega arith, λ a b. omega arith, λ a b d. omega arith)

-- Outside maintenance, a value above 100 written to the limit register is refused, and nothing but the
-- detection of Venus OS changes.
pub limit_rejected :
    (now : Clock) (v : ℕ) (vs : List ℕ) (s : Slave)
    → in_maintenance s.app ≡ false
    → 100 < v
    → (e : InvalidValue) × (handle_write now limit_addr (v ∷ vs) s
        ≡ (record s { app = detect true now s.app }, illegal e))
unfolding handle_write
limit_rejected now v vs s m h =
    let (e, why) = invalid v h in (e, rw (dispatched now 5 v vs s (omega arith) m, why))

-- Outside maintenance and with a distributor, the enable register takes 0 and 1, leaves the limit
-- as it is, shows both in the readback block, and calls the distributor once, with the limit and
-- the new flag; any other value is refused with no change but the detection of Venus OS.
pub enable_written :
    (now : Clock) (v : ℕ) (vs : List ℕ) (s : Slave)
    → in_maintenance s.app ≡ false
    → s.has_distributor ≡ true
    → (v ≤ 1
        → let (s', r) = handle_write now enable_addr (v ∷ vs) s in
          (r ≡ ok)
          × (s'.control.wmaxlim_ena ≡ v)
          × (s'.control.wmaxlimpct_raw ≡ s.control.wmaxlimpct_raw)
          × (s'.control.last_source ≡ venus_os)
          × (s'.control.webapp_revert_at ≡ none)
          × (s'.disk ≡ s.disk)
          × (s'.cache.datablock
              ≡ s.cache.datablock
                ++ record { address = 40150; values = get_model_123_readback s'.control } ∷ [])
          × (s'.distributed
              ≡ s.distributed
                ++ record { limit_pct = wmaxlimpct_float s.control; enable = v == 1 } ∷ []))
      × (1 < v
          → handle_write now enable_addr (v ∷ vs) s
            ≡ (record s { app = detect true now s.app }, bad_enable))
unfolding handle_write update_wmaxlim_ena set_from_venus_os is_enabled wmaxlimpct_float
enable_written now v vs s m d =
    let s' : Slave = record s { app = detect true now s.app } in
    (
      λ h.
          rw
            (
              dispatched now 9 v vs s (omega arith) m,
              lt→leb v h,
              distribute_present (set_enable now v s') d,
            )
            (refl, refl, refl, refl, refl, refl, refl, refl),
      λ h. rw (dispatched now 9 v vs s (omega arith) m, gt→leb v h),
    )

-- Outside maintenance and with a distributor, a write that begins at another register of Model 123
-- goes to the datablock unchecked, whatever its values, also where they cover the limit register;
-- the control state stays, and the distributor is called with the limit that was in force.
pub beside_control_registers :
    (now : Clock) (k v : ℕ) (vs : List ℕ) (s : Slave)
    → in_maintenance s.app ≡ false
    → s.has_distributor ≡ true
    → k ≤ 25
    → k ≢ wmaxlimpct_offset
    → k ≢ wmaxlim_ena_offset
    → let (s', r) = handle_write now (model_123_start + k) (v ∷ vs) s in
      (r ≡ ok)
      × (s'.control ≡ s.control)
      × (s'.cache.datablock
          ≡ s.cache.datablock ++ record { address = model_123_start + k + 1; values = v ∷ vs } ∷ [])
      × (s'.distributed
          ≡ s.distributed
            ++ record { limit_pct = wmaxlimpct_float s.control; enable = is_enabled s.control }
              ∷ [])
unfolding after_control_write
beside_control_registers now k v vs s m d h p q =
    let s' : Slave =
      store_write (model_123_start + k + 1) (v ∷ vs) (record s { app = detect true now s.app }) in
    rw (dispatched now k v vs s h m, other_register now k v vs _ p q, distribute_present s' d)
      (refl, refl, refl, refl)
