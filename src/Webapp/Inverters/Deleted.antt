-- ===== src/Webapp/Inverters/Deleted.antt =====
-- What a deletion leaves.
use pv_inverter_master.Base.{
  ℕ, ◌≡◌, refl, ◌==◌, String, Bool, true, false, Option, none, some, List, [], ◌∷◌, length,
  Bool-cases, inl, inr, str_eq, eq_iff, Dict, lookup, arith,
}
use pv_inverter_master.Json.{
  Value, null, boolean, integer, fraction, array, object, text, Fields, get,
}
use pv_inverter_master.Config.{save_config}
use pv_inverter_master.Config.Checks.{is_text}
use pv_inverter_master.Registry.{
  ManagedDevice, DeviceRegistry, find_entry, remove, stop_managed, stop_device,
}
use pv_inverter_master.Registry.Lifecycle.{IsSound, stop_device-IsSound}
use pv_inverter_master.Registry.Stopped.{lookup-removed}
use pv_inverter_master.Webapp.Inverters.{
  Plant, Answer, done, not_found, crashed, reconfigure_active, with_inverters, with_registry,
  settle_pause, saved, without_entry, inverters_delete_handler,
}

find_entry-without : (id : String) (es : List Fields) → find_entry id (without_entry id es) ≡ none
unfolding find_entry without_entry
find_entry-without id [] = refl
find_entry-without id (e ∷ es) = elim (Bool-cases (is_text id (get "id" e))) [
  | inl h ↦ rw (h, find_entry-without id es) refl
  | inr h ↦ rw (h, h, find_entry-without id es) refl
]

is_text-other :
    (id other : String) (v : Value)
    → str_eq id other ≡ false
    → is_text id v ≡ true
    → is_text other v ≡ false
is_text-other id other null n h = refl
is_text-other id other (boolean b) n h = refl
is_text-other id other (integer z) n h = refl
is_text-other id other fraction n h = refl
is_text-other id other (array xs) n h = refl
is_text-other id other (object fs) n h = refl
is_text-other id other (text t) n h = grind (arith, eq_iff t id, eq_iff t other, eq_iff id other)

find_entry-others :
    (id other : String) (es : List Fields)
    → str_eq id other ≡ false
    → find_entry other (without_entry id es) ≡ find_entry other es
unfolding find_entry without_entry
find_entry-others id other [] n = refl
find_entry-others id other (e ∷ es) n = elim (Bool-cases (is_text id (get "id" e))) [
  | inl h ↦ rw (h, is_text-other id other (get "id" e) n h, find_entry-others id other es n) refl
  | inr h ↦ rw (h, find_entry-others id other es n) refl
]

lookup-others {ℓ} :
    {V : Type ℓ} (id other : String) (d : Dict V)
    → str_eq id other ≡ false
    → lookup other (remove id d) ≡ lookup other d
unfolding lookup remove
lookup-others id other [] n = refl
lookup-others id other ((k, x) ∷ d) n = elim (Bool-cases (str_eq k id)) [
  | inl h ↦ rw (h, is_text-other id other (text k) n h, lookup-others id other d n) refl
  | inr h ↦ rw (h, lookup-others id other d n) refl
]

stopped-lookup :
    (id : String) (o : Option ManagedDevice) (r : DeviceRegistry)
    → lookup id r.managed ≡ o
    → (lookup id (stop_managed id o r).managed ≡ none)
      × ((other : String)
          → str_eq id other ≡ false
          → lookup other (stop_managed id o r).managed ≡ lookup other r.managed)
unfolding stop_managed
stopped-lookup id none r h = (h, λ other n. refl)
stopped-lookup id (some m) r h =
    (lookup-removed id r.managed, λ other n. lookup-others id other r.managed n)

-- What a successful deletion of a device makes of the plant.
pub record IsDeleted (id : String) (p p' : Plant) : Type 0 where
  pub sound : IsSound p'.registry
  pub unmanaged : lookup id p'.registry.managed ≡ none
  pub no_entry : find_entry id p'.config.inverters ≡ none
  pub written : p'.config_file ≡ save_config true p'.config p.config_file
  pub others_managed :
      (other : String)
      → str_eq id other ≡ false
      → lookup other p'.registry.managed ≡ lookup other p.registry.managed
  pub other_entries :
      (other : String)
      → str_eq id other ≡ false
      → find_entry other p'.config.inverters ≡ find_entry other p.config.inverters

abbrev plant : String → Plant → Plant
plant id p = settle_pause (
    with_registry (stop_device id p.registry)
      (saved true (with_inverters (without_entry id p.config.inverters) p)))

plant-IsDeleted : (id : String) (p : Plant) → IsSound p.registry → IsDeleted id p (plant id p)
unfolding stop_device
plant-IsDeleted id p h =
    let (gone, others) = stopped-lookup id (lookup id p.registry.managed) p.registry refl in
    record {
      sound = stop_device-IsSound id p.registry h;
      unmanaged = gone;
      no_entry = find_entry-without id p.config.inverters;
      written = refl;
      others_managed = others;
      other_entries = λ other n. find_entry-others id other p.config.inverters n;
    }

-- A deletion that is answered with success, in a registry whose devices are shown and whose tasks are
-- those of its devices, leaves no entry and no managed device of that identifier, and no task but those
-- of the managed devices; the other devices and entries are as they were, and the new configuration
-- is in the file.
pub deletion_complete :
    (millis : Value → ℕ) (writable : Bool) (id : String) (p : Plant)
    → IsSound p.registry
    → (inverters_delete_handler millis writable id p).1 ≡ done
    → IsDeleted id p (inverters_delete_handler millis writable id p).0
unfolding inverters_delete_handler reconfigure_active
deletion_complete millis true id p h ok =
    elim (Bool-cases (length (without_entry id p.config.inverters) == length p.config.inverters)) [
      | inl same ↦ absurd (never (rw same at ok))
      | inr less ↦ rw less (plant-IsDeleted id p h)
    ]
  where
    never : ◌≡◌ {A = Answer} not_found done → ⊥
    never e = cc
deletion_complete millis false id p h ok =
    elim (Bool-cases (length (without_entry id p.config.inverters) == length p.config.inverters)) [
      | inl same ↦ absurd (never (rw same at ok))
      | inr less ↦ absurd (raised (rw less at ok))
    ]
  where
    never : ◌≡◌ {A = Answer} not_found done → ⊥
    never e = cc

    raised : ◌≡◌ {A = Answer} crashed done → ⊥
    raised e = cc
