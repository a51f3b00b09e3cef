-- ===== src/Proxy/Gate.antt =====
-- Maintenance mode, the writes beside Model 123, the lock, and the validity of the control state.
use pv_inverter_master.Base.{
  ℕ, ◌-◌, ◌≡◌, refl, inl, inr, true, false, Option, none, some, List, [], ◌∷◌, ◌++◌, length, ◌==◌,
  arith, leb, pos, Bool-cases,
}
use pv_inverter_master.Control.{
  Clock, is_model_123_address, update_wmaxlim_ena, update_wmaxlimpct, set_from_venus_os,
  validate_wmaxlimpct, InvalidValue, model_123_start,
}
use pv_inverter_master.Control.Validity.{IsValid}
use pv_inverter_master.Context.{AppContext, enter_maintenance_mode}
use pv_inverter_master.Proxy.{
  Slave, Reply, ok, busy, bad_enable, illegal, handle_write, limit_outcome, write_limit,
  write_enable, set_limit, set_enable, in_maintenance, detect, handle_local_control_write,
  after_control_write, distribute, async_set_values, enter, leave,
}
use pv_inverter_master.Proxy.Dispatch.{in_maintenance-detect, handle_write-cases}

pub entered : (t : ℕ) (a : AppContext) → in_maintenance (some (enter_maintenance_mode t a)) ≡ true
unfolding enter_maintenance_mode
entered t a = ground arith

detect-miss : (now : Clock) (app : Option AppContext) → detect false now app ≡ app
unfolding detect
detect-miss now none = refl
detect-miss now (some a) = refl

-- Once maintenance mode was entered, every write that touches Model 123 is answered with DEVICE_BUSY,
-- and changes nothing but the detection of Venus OS: no control value, no datablock register, no
-- file, no call of the distributor.
pub maintenance_refuses :
    (now : Clock) (since address : ℕ) (values : List ℕ) (a : AppContext) (s : Slave)
    → is_model_123_address address (length values) ≡ true
    → let s' = record s { app = some (enter_maintenance_mode since a) } in
      handle_write now address values s'
      ≡ (record s' { app = detect true now (some (enter_maintenance_mode since a)) }, busy)
unfolding handle_write
maintenance_refuses now since address values a s h = rw (h, in_maintenance-detect, entered since a)

-- A write that touches no register of Model 123 is handed to pymodbus as it is, in maintenance mode
-- too; nothing else changes.
pub other_write_passes :
    (now : Clock) (address : ℕ) (values : List ℕ) (s : Slave)
    → is_model_123_address address (length values) ≡ false
    → handle_write now address values s
      ≡ (record s { passed = s.passed ++ record { address = address; values = values } ∷ [] }, ok)
unfolding handle_write
other_write_passes now address values s h =
    rw (h, detect-miss) (elim (Bool-cases (in_maintenance s.app)) [ inl m ↦ rw m | inr m ↦ rw m ])

distribute-control : (s : Slave) → (distribute s).control ≡ s.control
unfolding distribute
distribute-control s = ground arith

after-control : (p : Slave × Reply) → (after_control_write p).0.control ≡ p.0.control
unfolding after_control_write
after-control (s, ok) = distribute-control s
after-control (s, busy) = refl
after-control (s, bad_enable) = refl
after-control (s, illegal e) = refl

set_limit-IsValid :
    (now : Clock) (v : ℕ) (s : Slave) → IsValid s.control → IsValid (set_limit now v s).control
unfolding set_limit set_from_venus_os update_wmaxlim_ena update_wmaxlimpct
set_limit-IsValid now v s h = ground arith

limit_outcome-IsValid :
    (r : Option InvalidValue) (now : Clock) (v : ℕ) (s : Slave)
    → IsValid s.control
    → IsValid (limit_outcome r now v s).0.control
unfolding limit_outcome
limit_outcome-IsValid none now v s h = set_limit-IsValid now v s h
limit_outcome-IsValid (some e) now v s h = h

set_enable-IsValid :
    (now : Clock) (v : ℕ) (s : Slave)
    → leb v 1 ≡ true
    → IsValid s.control
    → IsValid (set_enable now v s).control
unfolding set_enable set_from_venus_os update_wmaxlim_ena
set_enable-IsValid now v s small h = ground arith

write_enable-IsValid :
    (now : Clock) (v : ℕ) (s : Slave) → IsValid s.control → IsValid (write_enable now v s).0.control
unfolding write_enable
write_enable-IsValid now v s h = elim (Bool-cases (leb v 1)) [
  | inl small ↦ rw small (set_enable-IsValid now v s small h)
  | inr large ↦ rw large h
]

local-IsValid :
    (now : Clock) (address : ℕ) (values : List ℕ) (s : Slave)
    → IsValid s.control
    → IsValid (handle_local_control_write now address values s).0.control
unfolding handle_local_control_write write_limit
local-IsValid now address [] s h = h
local-IsValid now address (v ∷ vs) s h = elim (Bool-cases (address - model_123_start == 5)) [
  | inl limit ↦ rw limit (limit_outcome-IsValid (validate_wmaxlimpct (pos v)) now v s h)
  | inr other ↦ elim (Bool-cases (address - model_123_start == 9)) [
    | inl enable ↦ rw (other, enable) (write_enable-IsValid now v s h)
    | inr elsewhere ↦ rw (other, elsewhere) h
  ]
]

handle_write-IsValid :
    (now : Clock) (address : ℕ) (values : List ℕ) (s : Slave)
    → IsValid s.control
    → IsValid (handle_write now address values s).0.control
handle_write-IsValid now address values s h =
    handle_write-cases (λ p. IsValid p.0.control) now address values s (λ hit. h)
      (rw after-control
        (local-IsValid now address values (record s { app = detect true now s.app }) h))
      h

-- Each write of Venus OS keeps the control state valid, whatever its address and its values are.
pub async_set_values-IsValid :
    (now : Clock) (address : ℕ) (values : List ℕ) (s : Slave)
    → IsValid s.control
    → IsValid (async_set_values now address values s).0.control
unfolding async_set_values enter leave
async_set_values-IsValid now address values s v =
    handle_write-IsValid now address values (enter s) v
