-- ===== src/Registry/Stopped.antt =====
-- The ends of devices: all of them stopped, and a device that was started twice.
use mathlib.Core.Path.{subst}
use mathlib.Core.List.{append_assoc}
use pv_inverter_master.Base.{
  ℕ, suc, ◌≤◌, ◌≡◌, refl, ap, sym, ◌∙◌, String, none, some, List, [], ◌∷◌, ◌++◌, Dict, lookup,
  insert, lookup-insert_self, Bool-cases, inl, inr, arith, str_eq, str_eq_self, eq_iff,
}
use pv_inverter_master.Json.{Fields}
use pv_inverter_master.Registry.{
  ManagedDevice, DeviceRegistry, remove, cancel, keys, manage, launch, stop_managed, stop_device,
  stop_each, stop_all,
}
use pv_inverter_master.Registry.Dicts.{IsDict, remove-missing}
use pv_inverter_master.Registry.Tasks.{
  tasks, Ranged, cancel-append, cancel_miss, lookup-here, lookup-later, not_found,
}
use pv_inverter_master.Registry.Lifecycle.{IsSound, stop_device-IsSound}

keys-nil {ℓ} : {V : Type ℓ} (d : Dict V) → keys d ≡ [] → d ≡ []
keys-nil [] h = refl
keys-nil ((k, x) ∷ d) h = absurd (cc)

remove-first {ℓ} :
    {V : Type ℓ} (k : String) (x : V) (d : Dict V) → lookup k d ≡ none → remove k ((k, x) ∷ d) ≡ d
unfolding remove
remove-first k x d h = rw (str_eq_self k, remove-missing k d h) refl

stop_first :
    (k : String) (m : ManagedDevice) (d : Dict ManagedDevice) (r : DeviceRegistry)
    → r.managed ≡ (k, m) ∷ d
    → IsSound r
    → (stop_device k r).managed ≡ d
unfolding stop_device stop_managed lookup
stop_first k m d r e h =
    let i : IsDict ((k, m) ∷ d) = subst IsDict e h.is_dict in
    let found : lookup k r.managed ≡ some m = ap (lookup k) e ∙ (rw (str_eq_self k) refl) in
    rw found (ap (remove k) e ∙ remove-first k m d i.0)

stop_each-managed :
    (d : Dict ManagedDevice) (r : DeviceRegistry)
    → r.managed ≡ d
    → IsSound r
    → ((stop_each (keys d) r).managed ≡ []) × IsSound (stop_each (keys d) r)
unfolding stop_each
stop_each-managed [] r e h = (e, h)
stop_each-managed ((k, m) ∷ d) r e h =
    stop_each-managed d (stop_device k r) (stop_first k m d r e h) (stop_device-IsSound k r h)

-- `stop_all` leaves no managed device, none in the application context, and no poll task.
pub stop_all_stops :
    (r : DeviceRegistry)
    → IsSound r
    → let s = stop_all r in (s.managed ≡ []) × (s.devices ≡ []) × (s.running ≡ [])
unfolding stop_all
stop_all_stops r h =
    let (gone, sound) = stop_each-managed r.managed r refl h in
    (
      gone,
      keys-nil (stop_all r).devices (sound.shown ∙ ap keys gone),
      sound.only_tasks ∙ ap tasks gone,
    )

remove-insert {ℓ} :
    {V : Type ℓ} (k : String) (x : V) (d : Dict V) → remove k (insert k x d) ≡ remove k d
unfolding remove insert
remove-insert k x [] = rw (str_eq_self k) refl
remove-insert k x ((j, y) ∷ d) = elim (Bool-cases (str_eq j k)) [
  | inl e ↦ rw (e, e) refl
  | inr e ↦ rw (e, e, remove-insert k x d) refl
]

pub lookup-removed {ℓ} : {V : Type ℓ} (k : String) (d : Dict V) → lookup k (remove k d) ≡ none
unfolding remove lookup
lookup-removed k [] = refl
lookup-removed k ((j, y) ∷ d) = elim (Bool-cases (str_eq j k)) [
  | inl e ↦ rw (e, lookup-removed k d) refl
  | inr e ↦ rw (e, e, lookup-removed k d) refl
]

-- A task above the range belongs to none of them.
cancel-above : (a n : ℕ) (d : Dict ManagedDevice) → Ranged a n d → cancel n (tasks d) ≡ tasks d
unfolding cancel
cancel-above a n [] r = refl
cancel-above a n ((k, m) ∷ d) r =
    cancel-append n (tasks d) ((m.poll_task, k) ∷ [])
    ∙ ap (λ xs. xs ++ cancel n ((m.poll_task, k) ∷ [])) (cancel-above (suc m.poll_task) n d r.1)
    ∙ ap (λ ys. tasks d ++ ys)
        (cancel_miss n m.poll_task k (λ e. omega (arith, e, below (suc m.poll_task) d r.1)))
  where
    below : (a : ℕ) (d : Dict ManagedDevice) → Ranged a n d → a ≤ n
    below a [] r = r
    below a ((k, m) ∷ d) r = omega (arith, r.0, below (suc m.poll_task) d r.1)

cancel-head : (n : ℕ) (k : String) (ts : List (ℕ × String)) → cancel n ((n, k) ∷ ts) ≡ cancel n ts
unfolding cancel
cancel-head n k ts = ground arith

abbrev pub Runs : ℕ → String → List (ℕ × String) → Type 0
Runs t id ts =
    (before : List (ℕ × String)) × (after : List (ℕ × String)) × (ts ≡ before ++ (t, id) ∷ after)

Runs-append :
    (t : ℕ) (id : String) (ts more : List (ℕ × String)) → Runs t id ts → Runs t id (ts ++ more)
Runs-append t id ts more (before, after, e) =
    (before, after ++ more, ap (λ xs. xs ++ more) e ∙ append_assoc before ((t, id) ∷ after) more)

managed-Runs :
    (k : String) (m : ManagedDevice) (d : Dict ManagedDevice)
    → lookup k d ≡ some m
    → Runs m.poll_task k (tasks d)
managed-Runs k m [] h = absurd (not_found k m h)
managed-Runs k m ((j, x) ∷ d) h = elim (Bool-cases (str_eq j k)) [
  | inl e ↦ (
    tasks d,
    [],
    ap (λ y. tasks d ++ (y.poll_task, j) ∷ []) (lookup-here k j x m d e h)
        ∙ ap (λ i. tasks d ++ (m.poll_task, i) ∷ []) ((eq_iff j k).0 e),
  )
  | inr e ↦
      Runs-append m.poll_task k (tasks d) ((x.poll_task, j) ∷ [])
        (managed-Runs k m d (lookup-later k j x m d e h))
]

-- A device that is started while it is managed, and then stopped: it is not managed, and yet every task
-- that ran before runs on, the one of that device among them.
pub restarted_task_leaks :
    (interval : ℕ) (id : String) (e : Fields) (m : ManagedDevice) (r : DeviceRegistry)
    → IsSound r
    → lookup id r.managed ≡ some m
    → let s = stop_device id (launch interval id e r) in
      (lookup id s.managed ≡ none) × (s.running ≡ r.running) × Runs m.poll_task id s.running
unfolding stop_device stop_managed launch
restarted_task_leaks interval id e m r h found =
    let same =
      cancel-head r.created id r.running
      ∙ ap (cancel r.created) h.only_tasks
      ∙ cancel-above 0 r.created r.managed h.numbered in
    rw (lookup-insert_self id (manage e r.created) r.managed) (
      lookup-removed id (insert id (manage e r.created) r.managed),
      same ∙ sym h.only_tasks,
      subst (Runs m.poll_task id) (sym same) (managed-Runs id m r.managed found),
    )
