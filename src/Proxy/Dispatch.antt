-- ===== src/Proxy/Dispatch.antt =====
-- How `handle_write` chooses its branch, and what each branch keeps.
use pv_inverter_master.Base.{
  ℕ, suc, ◌+◌, ◌-◌, ◌≤◌, ◌<◌, ◌≡◌, ◌≢◌, refl, ◌∙◌, inl, inr, Bool, true, false, Option, none, some,
  List, [], ◌∷◌, ◌++◌, length, ◌==◌, leb, arith, pos, Option-cases, Bool-cases,
}
use pv_inverter_master.Control.{
  Clock, InvalidValue, validate_wmaxlimpct, is_model_123_address, model_123_start,
  wmaxlimpct_offset, wmaxlim_ena_offset,
}
use pv_inverter_master.Control.Validity.{validate_wmaxlimpct_iff}
use pv_inverter_master.Context.{AppContext}
use pv_inverter_master.Proxy.{
  Slave, Reply, ok, busy, bad_enable, illegal, handle_write, write_limit, limit_outcome,
  write_enable, detect, in_maintenance, handle_local_control_write, after_control_write,
  store_write, set_enable, distribute, set_limit,
}

pub in_maintenance-detect :
    (hit : Bool) (now : Clock) (app : Option AppContext)
    → in_maintenance (detect hit now app) ≡ in_maintenance app
unfolding detect
in_maintenance-detect hit now none = refl
in_maintenance-detect hit now (some a) = ground arith

pub lt→leb : (v : ℕ) → v ≤ 1 → leb v 1 ≡ true
lt→leb v h = ground arith

pub gt→leb : (v : ℕ) → 1 < v → leb v 1 ≡ false
gt→leb v h = ground arith

pub hits : (k n : ℕ) → k ≤ 25 → is_model_123_address (model_123_start + k) (suc n) ≡ true
unfolding is_model_123_address
hits k n h = ground arith

pub valid : (v : ℕ) → v ≤ 100 → validate_wmaxlimpct (pos v) ≡ none
valid v h = (validate_wmaxlimpct_iff (pos v)).1 v refl h

pub invalid : (v : ℕ) → 100 < v → (e : InvalidValue) × (validate_wmaxlimpct (pos v) ≡ some e)
invalid v h = elim (Option-cases (validate_wmaxlimpct (pos v))) [
  | inl e ↦ absurd (refused ((validate_wmaxlimpct_iff (pos v)).0 e))
  | inr r ↦ r
]
  where
    refused : ((n : ℕ) × (pos v ≡ pos n) × (n ≤ 100)) → ⊥
    refused (n, e, small) = ground arith

-- Outside maintenance, a write that begins within Model 123 reaches the local handler.
pub dispatched :
    (now : Clock) (k v : ℕ) (vs : List ℕ) (s : Slave)
    → k ≤ 25
    → in_maintenance s.app ≡ false
    → handle_write now (model_123_start + k) (v ∷ vs) s
      ≡ after_control_write (
          handle_local_control_write now
            (model_123_start + k)
            (v ∷ vs)
            (record s { app = detect true now s.app }))
unfolding handle_write
dispatched now k v vs s h m = rw (hits k (length vs) h, in_maintenance-detect, m)

pub other_register :
    (now : Clock) (k v : ℕ) (vs : List ℕ) (s : Slave)
    → k ≢ wmaxlimpct_offset
    → k ≢ wmaxlim_ena_offset
    → handle_local_control_write now (model_123_start + k) (v ∷ vs) s
      ≡ (store_write (model_123_start + k + 1) (v ∷ vs) s, ok)
unfolding handle_local_control_write
other_register now k v vs s p q = ground arith

-- What holds of the three ways through a write holds of the write.
module _ {ℓ} (P : Slave × Reply → Type ℓ) (now : Clock) (address : ℕ) (values : List ℕ) (s : Slave)
    (gated : is_model_123_address address (length values) ≡ true
      → P (record s { app = detect true now s.app }, busy))
    (handled : P (
      after_control_write
        (handle_local_control_write now address values (record s { app = detect true now s.app }))))
    (elsewhere : P (
      record s {
        app = detect false now s.app;
        passed = s.passed ++ record { address = address; values = values } ∷ [];
      },
      ok,
    )) where
  pub handle_write-cases : P (handle_write now address values s)
  unfolding handle_write
  handle_write-cases = elim (Bool-cases (is_model_123_address address (length values))) [
    | inl hit ↦ elim (Bool-cases (in_maintenance s.app)) [
      | inl on ↦ rw (hit, in_maintenance-detect, on) (gated hit)
      | inr off ↦ rw (hit, in_maintenance-detect, off) handled
    ]
    | inr miss ↦ elim (Bool-cases (in_maintenance s.app)) [
      | inl on ↦ rw (miss, in_maintenance-detect, on) elsewhere
      | inr off ↦ rw (miss, in_maintenance-detect, off) elsewhere
    ]
  ]

-- Three operations on the state after which a part of it is as it was.
module _ {ℓ} {A : Type ℓ} (f : Slave → A) (of_distribute : (s : Slave) → f (distribute s) ≡ f s)
    (of_store : (address : ℕ) (values : List ℕ) (s : Slave)
      → f (store_write address values s) ≡ f s)
    (of_limit : (now : Clock) (v : ℕ) (s : Slave) → f (set_limit now v s) ≡ f s)
    (of_enable : (now : Clock) (v : ℕ) (s : Slave) → f (set_enable now v s) ≡ f s) where
  after_keeps : (p : Slave × Reply) → f (after_control_write p).0 ≡ f p.0
  unfolding after_control_write
  after_keeps (s, ok) = of_distribute s
  after_keeps (s, busy) = refl
  after_keeps (s, bad_enable) = refl
  after_keeps (s, illegal e) = refl

  outcome_keeps :
      (r : Option InvalidValue) (now : Clock) (v : ℕ) (s : Slave)
      → f (limit_outcome r now v s).0 ≡ f s
  unfolding limit_outcome
  outcome_keeps none now v s = of_limit now v s
  outcome_keeps (some e) now v s = refl

  write_enable_keeps : (now : Clock) (v : ℕ) (s : Slave) → f (write_enable now v s).0 ≡ f s
  unfolding write_enable
  write_enable_keeps now v s = elim (Bool-cases (leb v 1)) [
    | inl small ↦ rw small (of_enable now v s)
    | inr large ↦ rw large
  ]

  local_keeps :
      (now : Clock) (address : ℕ) (values : List ℕ) (s : Slave)
      → f (handle_local_control_write now address values s).0 ≡ f s
  unfolding handle_local_control_write write_limit
  local_keeps now address [] s = of_store (address + 1) [] s
  local_keeps now address (v ∷ vs) s = elim (Bool-cases (address - model_123_start == 5)) [
    | inl limit ↦ rw limit (outcome_keeps (validate_wmaxlimpct (pos v)) now v s)
    | inr other ↦ elim (Bool-cases (address - model_123_start == 9)) [
      | inl enable ↦ rw (other, enable) (write_enable_keeps now v s)
      | inr beside ↦ rw (other, beside) (of_store (address + 1) (v ∷ vs) s)
    ]
  ]

  pub handled_keeps :
      (now : Clock) (address : ℕ) (values : List ℕ) (s : Slave)
      → f (after_control_write (handle_local_control_write now address values s)).0 ≡ f s
  handled_keeps now address values s =
      after_keeps (handle_local_control_write now address values s)
      ∙ local_keeps now address values s
