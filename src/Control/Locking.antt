-- ===== src/Control/Locking.antt =====
-- The lock of the control state, and when it ends.
use pv_inverter_master.Base.{ℕ, ◌+◌, ◌-◌, ◌≤◌, ◌<◌, ◌≡◌, true, false, none, some, arith, min}
use pv_inverter_master.Control

-- A timed lock of d > 0 milliseconds, set at t, holds at every later moment before t + min d 900 s,
-- with the rest of that time as the time remaining; from then on the check releases it, once.
pub lock_lifetime :
    (d : ℕ) (t now : Control.Clock) (c : Control.ControlState)
    → 0 < d
    → t.mono ≤ now.mono
    → let locked = Control.lock d t c in
      let deadline = t.mono + min d Control.lock_cap in
      (now.mono < deadline
        → (Control.check_lock_expiry now locked ≡ (locked, false))
          × (Control.lock_remaining now locked ≡ some (deadline - now.mono)))
      × (deadline ≤ now.mono
          → (Control.check_lock_expiry now locked ≡ (Control.unlock locked, true))
            × (Control.check_lock_expiry now (Control.unlock locked)
                ≡ (Control.unlock locked, false)))
unfolding Control.lock Control.check_lock_expiry Control.lock_remaining
lock_lifetime d t now c pos later = ground arith

-- A lock of duration 0 never expires, and has no time remaining to show.
pub lock_permanent :
    (t now : Control.Clock) (c : Control.ControlState)
    → let locked = Control.lock 0 t c in
      (Control.check_lock_expiry now locked ≡ (locked, false))
      × (Control.lock_remaining now locked ≡ none)
unfolding Control.lock Control.check_lock_expiry Control.lock_remaining
lock_permanent t now c = ground arith
