-- ===== src/Registry/Tasks.antt =====
-- The tasks that belong to the managed devices.
use mathlib.Core.Path.{subst}
use mathlib.Core.List.{append-nil}
use pv_inverter_master.Base.{
  eq_iff, ℕ, suc, ◌+◌, ◌≤◌, ◌<◌, ◌≡◌, ◌≢◌, refl, ap, sym, ◌∙◌, String, true, false, Option, none,
  some, List, [], ◌∷◌, ◌++◌, ◌==◌, str_eq, Dict, lookup, Bool-cases, inl, inr, arith,
}
use pv_inverter_master.Registry.{ManagedDevice, remove, cancel}
use pv_inverter_master.Registry.Dicts.{IsDict, remove-missing}

-- The tasks of the managed devices, the last one first.
abbrev pub tasks : Dict ManagedDevice → List (ℕ × String)
tasks [] = []
tasks ((k, m) ∷ d) = tasks d ++ (m.poll_task, k) ∷ []

-- The tasks rise from `low`, and stay below `high`.
abbrev pub Ranged : ℕ → ℕ → Dict ManagedDevice → Type 0
Ranged low high [] = low ≤ high
Ranged low high ((k, m) ∷ d) = (low ≤ m.poll_task) × Ranged (suc m.poll_task) high d

pub Ranged-lower : (a b n : ℕ) (d : Dict ManagedDevice) → a ≤ b → Ranged b n d → Ranged a n d
Ranged-lower a b n [] h r = omega arith
Ranged-lower a b n ((k, m) ∷ d) h r = (omega (arith, r.0), r.1)

pub Ranged-append :
    (a n : ℕ) (k : String) (m : ManagedDevice) (d : Dict ManagedDevice)
    → Ranged a n d
    → m.poll_task ≡ n
    → Ranged a (n + 1) (d ++ (k, m) ∷ [])
Ranged-append a n k m [] h e = (omega arith, omega arith)
Ranged-append a n k m ((j, x) ∷ d) h e = (h.0, Ranged-append (suc x.poll_task) n k m d h.1 e)

pub Ranged-remove :
    (a n : ℕ) (k : String) (d : Dict ManagedDevice) → Ranged a n d → Ranged a n (remove k d)
unfolding remove
Ranged-remove a n k [] h = h
Ranged-remove a n k ((j, x) ∷ d) h = elim (Bool-cases (str_eq j k)) [
  | inl e ↦ rw e (
      Ranged-lower a (suc x.poll_task) n (remove k d) (omega (arith, h.0))
        (Ranged-remove (suc x.poll_task) n k d h.1))
  | inr e ↦ rw e (h.0, Ranged-remove (suc x.poll_task) n k d h.1)
]

pub tasks-append :
    (k : String) (m : ManagedDevice) (d : Dict ManagedDevice)
    → tasks (d ++ (k, m) ∷ []) ≡ (m.poll_task, k) ∷ tasks d
tasks-append k m [] = refl
tasks-append k m ((j, x) ∷ d) = rw (tasks-append k m d) refl

pub cancel-append :
    (t : ℕ) (xs ys : List (ℕ × String)) → cancel t (xs ++ ys) ≡ cancel t xs ++ cancel t ys
unfolding cancel
cancel-append t [] ys = refl
cancel-append t ((u, k) ∷ xs) ys = elim (Bool-cases (u == t)) [
  | inl e ↦ rw (e, cancel-append t xs ys) refl
  | inr e ↦ rw (e, cancel-append t xs ys) refl
]

cancel_hit : (t u : ℕ) (k : String) → u ≡ t → cancel t ((u, k) ∷ []) ≡ []
unfolding cancel
cancel_hit t u k e = ground arith

pub cancel_miss : (t u : ℕ) (k : String) → u ≢ t → cancel t ((u, k) ∷ []) ≡ (u, k) ∷ []
unfolding cancel
cancel_miss t u k e = ground arith

-- A task below the range belongs to none of them.
cancel-below :
    (t a n : ℕ) (d : Dict ManagedDevice) → t < a → Ranged a n d → cancel t (tasks d) ≡ tasks d
unfolding cancel
cancel-below t a n [] h r = refl
cancel-below t a n ((k, m) ∷ d) h r =
    cancel-append t (tasks d) ((m.poll_task, k) ∷ [])
    ∙ ap (λ xs. xs ++ cancel t ((m.poll_task, k) ∷ []))
        (cancel-below t (suc m.poll_task) n d (omega (arith, r.0)) r.1)
    ∙ ap (λ ys. tasks d ++ ys) (cancel_miss t m.poll_task k (λ e. omega (arith, e, r.0, h)))

pub lookup-here :
    (k j : String) (x m : ManagedDevice) (d : Dict ManagedDevice)
    → str_eq j k ≡ true
    → lookup k ((j, x) ∷ d) ≡ some m
    → x ≡ m
unfolding lookup
lookup-here k j x m d e h = same (rw e at h)
  where
    same : ◌≡◌ {A = Option ManagedDevice} (some x) (some m) → x ≡ m
    same p = cc

pub lookup-later :
    (k j : String) (x m : ManagedDevice) (d : Dict ManagedDevice)
    → str_eq j k ≡ false
    → lookup k ((j, x) ∷ d) ≡ some m
    → lookup k d ≡ some m
unfolding lookup
lookup-later k j x m d e h = rw e at h

task-above :
    (a n : ℕ) (k : String) (m : ManagedDevice) (d : Dict ManagedDevice)
    → Ranged a n d
    → lookup k d ≡ some m
    → a ≤ m.poll_task
unfolding lookup
task-above a n k m [] r h = absurd (cc)
task-above a n k m ((j, x) ∷ d) r h = elim (Bool-cases (str_eq j k)) [
  | inl e ↦ subst (λ y. a ≤ y.poll_task) (lookup-here k j x m d e h) r.0
  | inr e ↦
      omega (arith, r.0, task-above (suc x.poll_task) n k m d r.1 (lookup-later k j x m d e h))
]

pub not_found : (k : String) (m : ManagedDevice) → lookup k [] ≡ some m → ⊥
unfolding lookup
not_found k m h = cc

-- Removing a device cancels its task and no other.
pub tasks-remove :
    (a n : ℕ) (k : String) (m : ManagedDevice) (d : Dict ManagedDevice)
    → Ranged a n d
    → IsDict d
    → lookup k d ≡ some m
    → tasks (remove k d) ≡ cancel m.poll_task (tasks d)
unfolding remove
tasks-remove a n k m [] r i h = absurd (not_found k m h)
tasks-remove a n k m ((j, x) ∷ d) r i h = elim (Bool-cases (str_eq j k)) [
  | inl e ↦
      let same = ap (λ y. y.poll_task) (lookup-here k j x m d e h) in
      let gone = subst (λ i. lookup i d ≡ none) ((eq_iff j k).0 e) i.0 in
      rw e (
        ap tasks (remove-missing k d gone)
        ∙ sym (
            cancel-append m.poll_task (tasks d) ((x.poll_task, j) ∷ [])
            ∙ ap (λ xs. xs ++ cancel m.poll_task ((x.poll_task, j) ∷ []))
                (cancel-below m.poll_task (suc x.poll_task) n d (omega (arith, same)) r.1)
            ∙ ap (λ ys. tasks d ++ ys) (cancel_hit m.poll_task x.poll_task j same)
            ∙ append-nil (tasks d)))
  | inr e ↦
      let later = lookup-later k j x m d e h in
      let above = task-above (suc x.poll_task) n k m d r.1 later in
      rw e (
        ap (λ xs. xs ++ (x.poll_task, j) ∷ [])
          (tasks-remove (suc x.poll_task) n k m d r.1 i.1 later)
        ∙ sym (
            cancel-append m.poll_task (tasks d) ((x.poll_task, j) ∷ [])
            ∙ ap (λ ys. cancel m.poll_task (tasks d) ++ ys)
                (cancel_miss m.poll_task x.poll_task j (λ q. omega (arith, q, above)))))
]
