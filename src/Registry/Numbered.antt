-- ===== src/Registry/Numbered.antt =====
-- Poll tasks with different numbers, and the sizes of the dicts of the registry.
use mathlib.Core.Path.{subst}
use pv_inverter_master.Base.{
  ℕ, suc, ◌+◌, ◌<◌, ◌≡◌, ◌≢◌, refl, ap, sym, ◌∙◌, String, Bool, true, false, ◌&&◌, ◌||◌, none, some,
  List, [], ◌∷◌, ◌==◌, str_eq, eq_iff, Dict, lookup, insert, lookup-insert, length, Bool-cases, inl,
  inr, arith,
}
use pv_inverter_master.Registry.{remove, cancel}
use pv_inverter_master.Registry.Dicts.{IsDict, remove-missing}

-- The task `t` of the device `k` runs.
unfoldable pub runs : ℕ → String → List (ℕ × String) → Bool
runs t k [] = false
runs t k ((u, j) ∷ ts) = ((u == t) && str_eq j k) || runs t k ts

-- No task that runs has the number `t`.
abbrev pub Unused : ℕ → List (ℕ × String) → Type 0
Unused t [] = Unit
Unused t ((u, j) ∷ ts) = (u ≢ t) × Unused t ts

-- No number stands twice.
abbrev pub IsNumbered : List (ℕ × String) → Type 0
IsNumbered [] = Unit
IsNumbered ((u, j) ∷ ts) = Unused u ts × IsNumbered ts

abbrev pub AllBelow : ℕ → List (ℕ × String) → Type 0
AllBelow n [] = Unit
AllBelow n ((u, j) ∷ ts) = (u < n) × AllBelow n ts

pub AllBelow-Unused : (n : ℕ) (ts : List (ℕ × String)) → AllBelow n ts → Unused n ts
AllBelow-Unused n [] h = tt
AllBelow-Unused n ((u, j) ∷ ts) h = (λ e. omega (arith, e, h.0), AllBelow-Unused n ts h.1)

pub AllBelow-suc : (n : ℕ) (ts : List (ℕ × String)) → AllBelow n ts → AllBelow (n + 1) ts
AllBelow-suc n [] h = tt
AllBelow-suc n ((u, j) ∷ ts) h = (omega (arith, h.0), AllBelow-suc n ts h.1)

pub cancel-AllBelow : (t n : ℕ) (ts : List (ℕ × String)) → AllBelow n ts → AllBelow n (cancel t ts)
unfolding cancel
cancel-AllBelow t n [] h = tt
cancel-AllBelow t n ((u, j) ∷ ts) h = elim (Bool-cases (u == t)) [
  | inl e ↦ rw e (cancel-AllBelow t n ts h.1)
  | inr e ↦ rw e (h.0, cancel-AllBelow t n ts h.1)
]

cancel-Unused : (t n : ℕ) (ts : List (ℕ × String)) → Unused n ts → Unused n (cancel t ts)
unfolding cancel
cancel-Unused t n [] h = tt
cancel-Unused t n ((u, j) ∷ ts) h = elim (Bool-cases (u == t)) [
  | inl e ↦ rw e (cancel-Unused t n ts h.1)
  | inr e ↦ rw e (h.0, cancel-Unused t n ts h.1)
]

pub cancel-IsNumbered : (t : ℕ) (ts : List (ℕ × String)) → IsNumbered ts → IsNumbered (cancel t ts)
unfolding cancel
cancel-IsNumbered t [] h = tt
cancel-IsNumbered t ((u, j) ∷ ts) h = elim (Bool-cases (u == t)) [
  | inl e ↦ rw e (cancel-IsNumbered t ts h.1)
  | inr e ↦ rw e (cancel-Unused t u ts h.0, cancel-IsNumbered t ts h.1)
]

cancel_nothing : (t : ℕ) (ts : List (ℕ × String)) → Unused t ts → cancel t ts ≡ ts
unfolding cancel
cancel_nothing t [] h = refl
cancel_nothing t ((u, j) ∷ ts) h = ground (arith, h.0, cancel_nothing t ts h.1)

not_running : (t : ℕ) (k : String) (ts : List (ℕ × String)) → Unused t ts → runs t k ts ≡ false
unfolding runs
not_running t k [] h = refl
not_running t k ((u, j) ∷ ts) h = ground (arith, h.0, not_running t k ts h.1)

-- A task that is cancelled leaves one task less.
pub length-cancel :
    (t : ℕ) (k : String) (ts : List (ℕ × String))
    → IsNumbered ts
    → runs t k ts ≡ true
    → suc (length (cancel t ts)) ≡ length ts
unfolding runs cancel
length-cancel t k [] h r = absurd (cc)
length-cancel t k ((u, j) ∷ ts) h r = elim (Bool-cases (u == t)) [
  | inl e ↦
      let same : u ≡ t = ground arith in
      rw (e, cancel_nothing t ts (subst (λ n. Unused n ts) same h.0)) refl
  | inr e ↦ rw e (ap suc (length-cancel t k ts h.1 (rw e at r)))
]

-- A task belongs to one device.
pub runs_unique :
    (t : ℕ) (j k : String) (ts : List (ℕ × String))
    → IsNumbered ts
    → runs t j ts ≡ true
    → runs t k ts ≡ true
    → j ≡ k
unfolding runs
runs_unique t j k [] h r s = absurd (cc)
runs_unique t j k ((u, i) ∷ ts) h r s = elim (Bool-cases (u == t)) [
  | inl e ↦
      let same : u ≡ t = ground arith in
      let gone = subst (λ n. Unused n ts) same h.0 in
      let ij = rw (e, not_running t j ts gone) at r in
      let ik = rw (e, not_running t k ts gone) at s in
      sym ((eq_iff i j).0 (ground (arith, ij))) ∙ (eq_iff i k).0 (ground (arith, ik))
  | inr e ↦ runs_unique t j k ts h.1 (rw e at r) (rw e at s)
]

pub runs-cancel :
    (t u : ℕ) (k : String) (ts : List (ℕ × String))
    → u ≢ t
    → runs u k ts ≡ true
    → runs u k (cancel t ts) ≡ true
unfolding runs cancel
runs-cancel t u k [] n r = absurd (cc)
runs-cancel t u k ((v, j) ∷ ts) n r = ground (arith, n, runs-cancel t u k ts n)

module _ {ℓ} {V : Type ℓ} where
  pub insert-IsDict : (k : String) (x : V) (d : Dict V) → IsDict d → IsDict (insert k x d)
  unfolding insert lookup
  insert-IsDict k x [] h = (refl, tt)
  insert-IsDict k x ((j, y) ∷ d) h = elim (Bool-cases (str_eq j k)) [
    | inl e ↦ rw e h
    | inr e ↦
        let other : str_eq k j ≡ false = grind (arith, eq_iff j k, eq_iff k j) in
        rw e ((rw (lookup-insert, other) (h.0)), insert-IsDict k x d h.1)
  ]

  pub length-insert_there :
      (k : String) (x y : V) (d : Dict V) → lookup k d ≡ some y → length (insert k x d) ≡ length d
  unfolding insert lookup
  length-insert_there k x y [] h = absurd (cc)
  length-insert_there k x y ((j, z) ∷ d) h = elim (Bool-cases (str_eq j k)) [
    | inl e ↦ rw e refl
    | inr e ↦ rw e (ap suc (length-insert_there k x y d (rw e at h)))
  ]

  pub length-remove :
      (k : String) (y : V) (d : Dict V)
      → IsDict d
      → lookup k d ≡ some y
      → suc (length (remove k d)) ≡ length d
  unfolding remove lookup
  length-remove k y [] i h = absurd (cc)
  length-remove k y ((j, z) ∷ d) i h = elim (Bool-cases (str_eq j k)) [
    | inl e ↦
        let gone = subst (λ x. lookup x d ≡ none) ((eq_iff j k).0 e) i.0 in
        rw (e, remove-missing k d gone) refl
    | inr e ↦ rw e (ap suc (length-remove k y d i.1 (rw e at h)))
  ]

  pub lookup-remove_there :
      (k j : String) (y : V) (d : Dict V)
      → lookup j (remove k d) ≡ some y
      → (str_eq k j ≡ false) × (lookup j d ≡ some y)
  unfolding remove lookup
  lookup-remove_there k j y [] h = absurd (cc)
  lookup-remove_there k j y ((i, z) ∷ d) h = elim (Bool-cases (str_eq i k)) [
    | inl e ↦
        let (other, rest) = lookup-remove_there k j y d (rw e at h) in
        let past : str_eq i j ≡ false =
          subst (λ x. str_eq x j ≡ false) (sym ((eq_iff i k).0 e)) other in
        (other, rw past rest)
    | inr e ↦ elim (Bool-cases (str_eq i j)) [
      | inl f ↦ (grind (arith, eq_iff i k, eq_iff i j, eq_iff k j), rw f (rw (e, f) at h))
      | inr f ↦
          let (other, rest) = lookup-remove_there k j y d (rw (e, f) at h) in (other, rw f rest)
    ]
  ]
