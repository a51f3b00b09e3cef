-- ===== src/Registry/Lifecycle.antt =====
-- The registry over any sequence of its operations.
use mathlib.Core.Path.{subst}
use pv_inverter_master.Base.{
  ℕ, ◌+◌, ◌≡◌, refl, ap, sym, ◌∙◌, String, Option, none, some, ◌∷◌, lookup, Bool-cases, inl, inr,
  arith,
}
use pv_inverter_master.Json.{Value, Fields, get}
use pv_inverter_master.Config.{Config}
use pv_inverter_master.Config.Checks.{is_enabled, get_gateway_for_inverter}
use pv_inverter_master.Registry.{
  ManagedDevice, DeviceRegistry, fresh_registry, cancel, keys, find_entry, is_known_type,
  interval_of, new_device_state, manage, launch, start_entry, start_device, stop_managed,
  stop_device,
}
use pv_inverter_master.Registry.Dicts.{
  IsDict, add, without, keys-insert, keys-remove, insert-new, remove-IsDict, append-IsDict,
}
use pv_inverter_master.Registry.Tasks.{
  tasks, Ranged, Ranged-append, Ranged-remove, tasks-append, tasks-remove,
}

-- The context shows exactly the managed devices, and the tasks that run are exactly those of the
-- managed devices.
pub record IsSound (r : DeviceRegistry) : Type 0 where
  pub is_dict : IsDict r.managed
  pub shown : keys r.devices ≡ keys r.managed
  pub numbered : Ranged 0 r.created r.managed
  pub only_tasks : r.running ≡ tasks r.managed

fresh-IsSound : IsSound fresh_registry
fresh-IsSound = record { is_dict = tt; shown = refl; numbered = omega arith; only_tasks = refl }

launch-IsSound :
    (interval : ℕ) (id : String) (e : Fields) (r : DeviceRegistry)
    → lookup id r.managed ≡ none
    → IsSound r
    → IsSound (launch interval id e r)
unfolding launch
launch-IsSound interval id e r new h =
    let m = manage e r.created in
    let ends = sym (insert-new id m r.managed new) in
    record {
      is_dict = subst IsDict ends (append-IsDict id m r.managed new h.is_dict);
      shown =
          keys-insert id (new_device_state interval) r.devices
          ∙ ap (add id) h.shown
          ∙ sym (keys-insert id m r.managed);
      numbered =
          subst (Ranged 0 (r.created + 1)) ends
            (Ranged-append 0 r.created id m r.managed h.numbered refl);
      only_tasks =
          ap (λ ts. (r.created, id) ∷ ts) h.only_tasks
          ∙ sym (tasks-append id m r.managed)
          ∙ ap tasks ends;
    }

start_entry-IsSound :
    (millis : Value → ℕ) (c : Config) (id : String) (o : Option Fields) (r : DeviceRegistry)
    → lookup id r.managed ≡ none
    → IsSound r
    → IsSound (start_entry millis c id o r).0
unfolding start_entry
start_entry-IsSound millis c id none r new h = h
start_entry-IsSound millis c id (some e) r new h = elim (Bool-cases (is_enabled e)) [
  | inr off ↦ rw off h
  | inl on ↦ elim (Bool-cases (is_known_type (get "type" e))) [
    | inl known ↦
        rw (on, known)
          (launch-IsSound (millis (interval_of c (get_gateway_for_inverter c e))) id e r new h)
    | inr other ↦ rw (on, other) h
  ]
]

stop_managed-IsSound :
    (id : String) (o : Option ManagedDevice) (r : DeviceRegistry)
    → lookup id r.managed ≡ o
    → IsSound r
    → IsSound (stop_managed id o r)
unfolding stop_managed
stop_managed-IsSound id none r e h = h
stop_managed-IsSound id (some m) r e h = record {
  is_dict = remove-IsDict id r.managed h.is_dict;
  shown = keys-remove id r.devices ∙ ap (without id) h.shown ∙ sym (keys-remove id r.managed);
  numbered = Ranged-remove 0 r.created id r.managed h.numbered;
  only_tasks =
      ap (cancel m.poll_task) h.only_tasks
      ∙ sym (tasks-remove 0 r.created id m r.managed h.numbered h.is_dict e);
}

pub stop_device-IsSound :
    (id : String) (r : DeviceRegistry) → IsSound r → IsSound (stop_device id r)
unfolding stop_device
stop_device-IsSound id r h = stop_managed-IsSound id (lookup id r.managed) r refl h

module _ (millis : Value → ℕ) (c : Config) where
  -- Stops, and starts of devices that are not managed.
  pub data Step : DeviceRegistry → DeviceRegistry → Type 0 where
    starts :
        (id : String) (r : DeviceRegistry)
        → lookup id r.managed ≡ none
        → Step r (start_device millis c id r).0
    stops : (id : String) (r : DeviceRegistry) → Step r (stop_device id r)

  pub data Reach : DeviceRegistry → Type 0 where
    here : Reach fresh_registry
    next : {r s : DeviceRegistry} → Reach r → Step r s → Reach s

  Step-IsSound : {r s : DeviceRegistry} → Step r s → IsSound r → IsSound s
  unfolding start_device
  Step-IsSound (starts id r new) h =
      start_entry-IsSound millis c id (find_entry id c.inverters) r new h
  Step-IsSound (stops id r) h = stop_device-IsSound id r h

  -- Whatever devices are started, each when it is not managed, and stopped: the devices that the
  -- application context shows are the managed ones, each has one poll task that runs, and no
  -- other task runs.
  pub Reach-IsSound : {r : DeviceRegistry} → Reach r → IsSound r
  Reach-IsSound here = fresh-IsSound
  Reach-IsSound (next r st) = Step-IsSound st (Reach-IsSound r)
