-- ===== src/Registry/Leaks.antt =====
-- The poll tasks over any sequence of starts and stops, also of starts of devices that are managed.
use mathlib.Core.Path.{subst}
use pv_inverter_master.Base.{
  ℕ, suc, ◌+◌, ◌≡◌, refl, ap, sym, ◌∙◌, String, true, false, Option, none, some, [], ◌∷◌, ◌==◌,
  if◌then◌else◌, str_eq, eq_iff, lookup, insert, lookup-insert, length, length-append, Bool-cases,
  inl, inr, arith,
}
use pv_inverter_master.Json.{Value, Fields, get}
use pv_inverter_master.Config.{Config}
use pv_inverter_master.Config.Checks.{is_enabled, get_gateway_for_inverter}
use pv_inverter_master.Registry.{
  ManagedDevice, DeviceRegistry, fresh_registry, keys, find_entry, is_known_type, interval_of,
  new_device_state, manage, launch, start_entry, start_device, stop_managed, stop_device,
}
use pv_inverter_master.Registry.Dicts.{
  IsDict, add, without, keys-insert, keys-remove, insert-new, remove-IsDict,
}
use pv_inverter_master.Registry.Numbered.{
  runs, IsNumbered, AllBelow, AllBelow-Unused, AllBelow-suc, cancel-AllBelow, cancel-IsNumbered,
  length-cancel, runs_unique, runs-cancel, insert-IsDict, length-insert_there, length-remove,
  lookup-remove_there,
}

-- The devices that are shown are the managed ones, each has its own task that runs, and `leaked` more
-- tasks run, which belong to no managed device.
pub record IsAccounted (leaked : ℕ) (r : DeviceRegistry) : Type 0 where
  pub is_dict : IsDict r.managed
  pub shown : keys r.devices ≡ keys r.managed
  pub below : AllBelow r.created r.running
  pub numbered : IsNumbered r.running
  pub owned :
      (k : String) (m : ManagedDevice)
      → lookup k r.managed ≡ some m
      → runs m.poll_task k r.running ≡ true
  pub total : length r.running ≡ length r.managed + leaked

fresh-IsAccounted : IsAccounted 0 fresh_registry
unfolding lookup
fresh-IsAccounted = record {
  is_dict = tt;
  shown = refl;
  below = tt;
  numbered = tt;
  owned = λ k m h. absurd (cc);
  total = refl;
}

unfoldable pub one_if_managed : Option ManagedDevice → ℕ
one_if_managed none = 0
one_if_managed (some m) = 1

some_injective : (x y : ManagedDevice) → ◌≡◌ {A = Option ManagedDevice} (some x) (some y) → x ≡ y
some_injective x y h = cc

module _ (interval : ℕ) (id : String) (e : Fields) (r : DeviceRegistry) where
  abbrev started : DeviceRegistry
  started = launch interval id e r

  launch-owned :
      {leaked : ℕ}
      → IsAccounted leaked r
      → (k : String) (m : ManagedDevice)
      → lookup k (insert id (manage e r.created) r.managed) ≡ some m
      → runs m.poll_task k ((r.created, id) ∷ r.running) ≡ true
  unfolding runs
  launch-owned h k m found = elim (Bool-cases (str_eq id k)) [
    | inl same ↦
        let new = some_injective (manage e r.created) m (rw (lookup-insert, same) at found) in
        let here : runs r.created k ((r.created, id) ∷ r.running) ≡ true = rw same (ground arith) in
        subst (λ x. runs x.poll_task k ((r.created, id) ∷ r.running) ≡ true) new here
    | inr other ↦ let own = h.owned k m (rw (lookup-insert, other) at found) in ground (arith, own)
  ]

  launch-total :
      {leaked : ℕ} (o : Option ManagedDevice)
      → lookup id r.managed ≡ o
      → IsAccounted leaked r
      → suc (length r.running)
        ≡ length (insert id (manage e r.created) r.managed) + (leaked + one_if_managed o)
  unfolding one_if_managed
  launch-total none n h =
      let size = length-append r.managed ((id, manage e r.created) ∷ []) in
      rw (insert-new id (manage e r.created) r.managed n) (omega (arith, size, h.total))
  launch-total (some m) n h =
      rw (length-insert_there id (manage e r.created) m r.managed n) (omega (arith, h.total))

  launch-IsAccounted :
      {leaked : ℕ}
      → IsAccounted leaked r
      → IsAccounted (leaked + one_if_managed (lookup id r.managed)) (launch interval id e r)
  unfolding launch
  launch-IsAccounted h = record {
    is_dict = insert-IsDict id (manage e r.created) r.managed h.is_dict;
    shown =
        keys-insert id (new_device_state interval) r.devices
        ∙ ap (add id) h.shown
        ∙ sym (keys-insert id (manage e r.created) r.managed);
    below = (omega arith, AllBelow-suc r.created r.running h.below);
    numbered = (AllBelow-Unused r.created r.running h.below, h.numbered);
    owned = launch-owned h;
    total = launch-total (lookup id r.managed) refl h;
  }

contradiction : false ≡ true → ⊥
contradiction e = cc

stop_managed-IsAccounted :
    {leaked : ℕ} (id : String) (o : Option ManagedDevice) (r : DeviceRegistry)
    → lookup id r.managed ≡ o
    → IsAccounted leaked r
    → IsAccounted leaked (stop_managed id o r)
unfolding stop_managed
stop_managed-IsAccounted id none r e h = h
stop_managed-IsAccounted id (some m) r e h =
    let mine = h.owned id m e in
    record {
      is_dict = remove-IsDict id r.managed h.is_dict;
      shown = keys-remove id r.devices ∙ ap (without id) h.shown ∙ sym (keys-remove id r.managed);
      below = cancel-AllBelow m.poll_task r.created r.running h.below;
      numbered = cancel-IsNumbered m.poll_task r.running h.numbered;
      owned = λ k x found.
          let (other, there) = lookup-remove_there id k x r.managed found in
          let own = h.owned k x there in
          runs-cancel m.poll_task x.poll_task k r.running
            (λ same.
              let both = subst (λ t. runs t k r.running ≡ true) same own in
              let equal = runs_unique m.poll_task id k r.running h.numbered mine both in
              absurd (differ id k other equal))
            own;
      total =
          let fewer = length-cancel m.poll_task id r.running h.numbered mine in
          let left = length-remove id m r.managed h.is_dict e in
          omega (arith, fewer, left, h.total);
    }
  where
    differ : (j k : String) → str_eq j k ≡ false → j ≡ k → ⊥
    differ j k e same = contradiction (sym e ∙ (eq_iff j k).1 same)

-- The tasks that a start leaks, given the numbers of tasks created before and after it: one, if it
-- created a task for a device that was managed.
unfoldable pub leaked_by : ℕ → ℕ → Option ManagedDevice → ℕ
unfolding one_if_managed
leaked_by before after o = if before == after then 0 else one_if_managed o

leaked_by-same : (n : ℕ) (o : Option ManagedDevice) → leaked_by n n o ≡ 0
unfolding leaked_by
leaked_by-same n o = ground arith

leaked_by-suc : (n : ℕ) (o : Option ManagedDevice) → leaked_by n (n + 1) o ≡ one_if_managed o
unfolding leaked_by
leaked_by-suc n o = ground arith

module _ (millis : Value → ℕ) where
  -- A registry after a start, given the one before and what was managed of the device.
  abbrev Started : ℕ → DeviceRegistry → Option ManagedDevice → DeviceRegistry → Type 0
  Started n r o r' = IsAccounted (n + leaked_by r.created r'.created o) r'

  unchanged :
      {n : ℕ} (o : Option ManagedDevice) (r : DeviceRegistry) → IsAccounted n r → Started n r o r
  unchanged {n = n} o r h =
      let same : n + leaked_by r.created r.created o ≡ n =
        omega (arith, leaked_by-same r.created o) in
      subst (λ k. IsAccounted k r) (sym same) h

  launched :
      {n : ℕ} (interval : ℕ) (id : String) (e : Fields) (r : DeviceRegistry)
      → IsAccounted n r
      → Started n r (lookup id r.managed) (launch interval id e r)
  unfolding launch
  launched {n = n} interval id e r h =
      let o = lookup id r.managed in
      subst (λ k. IsAccounted (n + k) (launch interval id e r)) (sym (leaked_by-suc r.created o))
        (launch-IsAccounted interval id e r h)

  start_entry-IsAccounted :
      {n : ℕ} (c : Config) (id : String) (o : Option Fields) (r : DeviceRegistry)
      → IsAccounted n r
      → Started n r (lookup id r.managed) (start_entry millis c id o r).0
  unfolding start_entry
  start_entry-IsAccounted c id none r h = unchanged (lookup id r.managed) r h
  start_entry-IsAccounted c id (some e) r h = elim (Bool-cases (is_enabled e)) [
    | inr off ↦ rw off (unchanged (lookup id r.managed) r h)
    | inl on ↦ elim (Bool-cases (is_known_type (get "type" e))) [
      | inl known ↦
          rw (on, known) (launched (millis (interval_of c (get_gateway_for_inverter c e))) id e r h)
      | inr other ↦ rw (on, other) (unchanged (lookup id r.managed) r h)
    ]
  ]

  -- Any number of starts, of whatever devices and under whatever configurations, and stops; the number counts the starts of managed
  -- devices that created a task.
  pub data Run : ℕ → DeviceRegistry → Type 0 where
    here : Run 0 fresh_registry
    starts :
        {n : ℕ} {r : DeviceRegistry} (c : Config) (id : String)
        → Run n r
        → Run
            (n + leaked_by r.created (start_device millis c id r).0.created (lookup id r.managed))
            (start_device millis c id r).0
    stops : {n : ℕ} {r : DeviceRegistry} (id : String) → Run n r → Run n (stop_device id r)

  -- After any sequence of starts, of managed devices too, each under a configuration of its own, and of
  -- stops, from an empty registry: the devices that the application
  -- context shows are the managed ones, each of them has its own poll task that runs, no two tasks
  -- have one number, and the number of tasks that run is that of the managed devices and one more for
  -- each start of a managed device that created a task. So each such start leaks a task for good,
  -- whatever is stopped later, and without one no other task runs.
  pub Run-IsAccounted : {n : ℕ} {r : DeviceRegistry} → Run n r → IsAccounted n r
  unfolding start_device stop_device
  Run-IsAccounted here = fresh-IsAccounted
  Run-IsAccounted (starts {r = r} c id run) =
      start_entry-IsAccounted c id (find_entry id c.inverters) r (Run-IsAccounted run)
  Run-IsAccounted (stops {r = r} id run) =
      stop_managed-IsAccounted id (lookup id r.managed) r refl (Run-IsAccounted run)
