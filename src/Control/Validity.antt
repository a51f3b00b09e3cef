-- ===== src/Control/Validity.antt =====
-- What holds of a ControlState between two operations, and what its operations promise.
use pv_inverter_master.Base.{
  ℕ, ◌+◌, ◌≤◌, ◌<◌, ◌≡◌, ◌≢◌, refl, true, none, some, arith, max, ℤ, pos, negsuc, get_elem?, length,
}
use pv_inverter_master.Control

-- The enable register is a flag, a revert deadline belongs to a limit of the web application, and
-- a lock deadline to a lock.
pub record IsValid (c : Control.ControlState) : Type 0 where
  pub flag : c.wmaxlim_ena ≤ 1
  pub revert_owned : c.webapp_revert_at ≢ none → c.last_source ≡ Control.webapp
  pub lock_owned : c.lock_expires_at ≢ none → c.is_locked ≡ true

pub initial-IsValid : IsValid Control.initial
initial-IsValid = ground arith

pub set_from_webapp-IsValid :
    (raw ena timeout : ℕ) (now : Control.Clock) (c : Control.ControlState)
    → ena ≤ 1
    → IsValid c
    → IsValid (Control.set_from_webapp raw ena timeout now c)
unfolding Control.set_from_webapp
set_from_webapp-IsValid raw ena timeout now c e h = ground arith

pub set_from_venus_os-IsValid :
    (now : Control.Clock) (c : Control.ControlState)
    → IsValid c
    → IsValid (Control.set_from_venus_os now c)
unfolding Control.set_from_venus_os
set_from_venus_os-IsValid now c h = ground arith

pub lock-IsValid :
    (duration : ℕ) (now : Control.Clock) (c : Control.ControlState)
    → IsValid c
    → IsValid (Control.lock duration now c)
unfolding Control.lock
lock-IsValid duration now c h = ground arith

pub check_lock_expiry-IsValid :
    (now : Control.Clock) (c : Control.ControlState)
    → IsValid c
    → IsValid (Control.check_lock_expiry now c).0
unfolding Control.check_lock_expiry
check_lock_expiry-IsValid now c h = ground arith

-- A raw value is accepted exactly if it is a percentage from 0 to 100.
pub validate_wmaxlimpct_iff :
    (raw : ℤ)
    → (Control.validate_wmaxlimpct raw ≡ none → (n : ℕ) × (raw ≡ pos n) × (n ≤ 100))
      × ((n : ℕ) → raw ≡ pos n → n ≤ 100 → Control.validate_wmaxlimpct raw ≡ none)
unfolding Control.validate_wmaxlimpct
validate_wmaxlimpct_iff (negsuc k) = (λ e. absurd (ground arith), λ n e h. absurd (ground arith))
validate_wmaxlimpct_iff (pos k) = (λ e. (k, refl, ground arith), λ n e h. ground arith)

-- A range of one or more registers is taken for Model 123 exactly if one of its registers lies
-- between 40149 and 40174.
pub is_model_123_address_iff :
    (address count : ℕ)
    → 1 ≤ count
    → (Control.is_model_123_address address count ≡ true
        → (r : ℕ) × (address ≤ r)
          × (r < address + count)
          × (Control.model_123_start ≤ r)
          × (r ≤ Control.model_123_end))
      × ((r : ℕ)
          → address ≤ r
          → r < address + count
          → Control.model_123_start ≤ r
          → r ≤ Control.model_123_end
          → Control.is_model_123_address address count ≡ true)
unfolding Control.is_model_123_address
is_model_123_address_iff address count h = (
  λ e. (max address Control.model_123_start, omega arith, ground arith, omega arith, ground arith),
  λ r a b c d. ground arith,
)

-- The readback block has 26 registers, and shows the header of Model 123 and the two control values
-- at their offsets.
pub readback_shows :
    (c : Control.ControlState)
    → let regs = Control.get_model_123_readback c in
      (length regs ≡ 26)
      × (get_elem? regs 0 ≡ some 123)
      × (get_elem? regs 1 ≡ some 24)
      × (get_elem? regs Control.wmaxlimpct_offset ≡ some c.wmaxlimpct_raw)
      × (get_elem? regs Control.wmaxlim_ena_offset ≡ some c.wmaxlim_ena)
unfolding Control.get_model_123_readback
readback_shows c = (refl, refl, refl, refl, refl)

-- A device clamp is an ordered pair of percentages. Its upper end is the requested one brought
-- into 0 to 100; an ordered request within 0 to 100 is kept as it is.
pub device_clamp_bounds :
    (lo hi : ℤ)
    → ((Control.device_clamp lo hi).0 ≤ (Control.device_clamp lo hi).1)
      × ((Control.device_clamp lo hi).1 ≤ 100)
      × ((Control.device_clamp lo hi).1 ≡ Control.percent hi)
      × ((a b : ℕ)
          → lo ≡ pos a
          → hi ≡ pos b
          → a ≤ b
          → b ≤ 100
          → Control.device_clamp lo hi ≡ (a, b))
unfolding Control.device_clamp
device_clamp_bounds lo hi = (ground arith, ground arith, refl, λ a b e f g h. ground arith)
