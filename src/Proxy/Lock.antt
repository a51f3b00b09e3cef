-- ===== src/Proxy/Lock.antt =====
-- The lock of the control state on the write path.
use pv_inverter_master.Base.{
  ℕ, ◌-◌, ◌≡◌, refl, ap, ◌∙◌, inl, inr, Bool, true, Option, none, some, List, [], ◌∷◌, length, ◌==◌,
  leb, pos, arith, Bool-cases,
}
use pv_inverter_master.Control.{
  Clock, is_model_123_address, update_wmaxlim_ena, update_wmaxlimpct, set_from_venus_os,
  validate_wmaxlimpct, InvalidValue, model_123_start, wmaxlimpct_float, is_enabled,
  get_model_123_readback,
}
use pv_inverter_master.Control.Storage.{save_last_limit}
use pv_inverter_master.Proxy.{
  Slave, Reply, ok, busy, bad_enable, illegal, handle_write, limit_outcome, write_limit,
  write_enable, set_limit, set_enable, in_maintenance, detect, handle_local_control_write,
  after_control_write, distribute, clamp_limit,
}
use pv_inverter_master.Proxy.Dispatch.{in_maintenance-detect}

-- The same state with another lock.
abbrev pub relock : Bool → Option ℕ → Slave → Slave
relock b e s = record s { control = record s.control { is_locked = b; lock_expires_at = e } }

abbrev pub relocked : Bool → Option ℕ → Slave × Reply → Slave × Reply
relocked b e (s, r) = (relock b e s, r)

module _ (b : Bool) (e : Option ℕ) (now : Clock) where
  set_limit-relock :
      (v : ℕ) (s : Slave) → set_limit now v (relock b e s) ≡ relock b e (set_limit now v s)
  unfolding set_limit set_from_venus_os update_wmaxlim_ena update_wmaxlimpct clamp_limit
      save_last_limit wmaxlimpct_float get_model_123_readback
  set_limit-relock v s = refl

  limit_outcome-relock :
      (r : Option InvalidValue) (v : ℕ) (s : Slave)
      → limit_outcome r now v (relock b e s) ≡ relocked b e (limit_outcome r now v s)
  unfolding limit_outcome
  limit_outcome-relock none v s = ap (λ t. (t, ok)) (set_limit-relock v s)
  limit_outcome-relock (some x) v s = refl

  set_enable-relock :
      (v : ℕ) (s : Slave) → set_enable now v (relock b e s) ≡ relock b e (set_enable now v s)
  unfolding set_enable set_from_venus_os update_wmaxlim_ena is_enabled wmaxlimpct_float
      get_model_123_readback
  set_enable-relock v s = refl

  write_enable-relock :
      (v : ℕ) (s : Slave) → write_enable now v (relock b e s) ≡ relocked b e (write_enable now v s)
  unfolding write_enable
  write_enable-relock v s = elim (Bool-cases (leb v 1)) [
    | inl small ↦ rw small (ap (λ t. (t, ok)) (set_enable-relock v s))
    | inr large ↦ rw large
  ]

  local-relock :
      (address : ℕ) (values : List ℕ) (s : Slave)
      → handle_local_control_write now address values (relock b e s)
        ≡ relocked b e (handle_local_control_write now address values s)
  unfolding handle_local_control_write write_limit
  local-relock address [] s = refl
  local-relock address (v ∷ vs) s = elim (Bool-cases (address - model_123_start == 5)) [
    | inl limit ↦ rw limit (limit_outcome-relock (validate_wmaxlimpct (pos v)) v s)
    | inr other ↦ elim (Bool-cases (address - model_123_start == 9)) [
      | inl enable ↦ rw (other, enable) (write_enable-relock v s)
      | inr elsewhere ↦ rw (other, elsewhere)
    ]
  ]

distribute-relock :
    (b : Bool) (e : Option ℕ) (s : Slave) → distribute (relock b e s) ≡ relock b e (distribute s)
unfolding distribute wmaxlimpct_float is_enabled
distribute-relock b e s = ground arith

after-relock :
    (b : Bool) (e : Option ℕ) (p : Slave × Reply)
    → after_control_write (relocked b e p) ≡ relocked b e (after_control_write p)
unfolding after_control_write
after-relock b e (s, ok) = ap (λ t. (t, ok)) (distribute-relock b e s)
after-relock b e (s, busy) = refl
after-relock b e (s, bad_enable) = refl
after-relock b e (s, illegal x) = refl

-- The lock has no part in a write of Venus OS: under any lock the reply, the limit, the enable
-- flag, the files, the datablock and the calls of the distributor are those without it.
pub handle_write-relock :
    (b : Bool) (e : Option ℕ) (now : Clock) (address : ℕ) (values : List ℕ) (s : Slave)
    → handle_write now address values (relock b e s)
      ≡ relocked b e (handle_write now address values s)
unfolding handle_write
handle_write-relock b e now address values s = elim (Bool-cases (in_maintenance s.app)) [
  | inl on ↦ elim (Bool-cases (is_model_123_address address (length values))) [
    | inl hit ↦ rw (hit, in_maintenance-detect, on)
    | inr miss ↦ rw (miss, in_maintenance-detect, on)
  ]
  | inr off ↦ elim (Bool-cases (is_model_123_address address (length values))) [
    | inl hit ↦
        rw (hit, in_maintenance-detect, off)
          (ap after_control_write
              (local-relock b e now address values (record s { app = detect true now s.app }))
            ∙ after-relock b e (
                handle_local_control_write now address values
                  (record s { app = detect true now s.app })))
    | inr miss ↦ rw (miss, in_maintenance-detect, off)
  ]
]
