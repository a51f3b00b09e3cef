-- ===== src/Registry/Dicts.antt =====
-- The dicts of the registry: keys, insertion and removal.
use pv_inverter_master.Base.{
  ◌≡◌, refl, String, false, none, some, List, [], ◌∷◌, ◌++◌, str_eq, eq_iff, if◌then◌else◌, Dict,
  lookup, insert, Bool-cases, inl, inr, arith,
}
use pv_inverter_master.Registry.{remove, keys}

-- No key stands twice.
abbrev pub IsDict {ℓ} : {V : Type ℓ} → Dict V → Type ℓ
IsDict [] = Unit
IsDict ((k, x) ∷ d) = (lookup k d ≡ none) × IsDict d

str_eq-swap : (j k : String) → str_eq j k ≡ false → str_eq k j ≡ false
str_eq-swap j k h = grind (arith, eq_iff j k, eq_iff k j)

-- A key added at the end, if it is new.
abbrev pub add : String → List String → List String
add k [] = k ∷ []
add k (j ∷ js) = let rest = add k js in if str_eq j k then j ∷ js else j ∷ rest

abbrev pub without : String → List String → List String
without k [] = []
without k (j ∷ js) = let rest = without k js in if str_eq j k then rest else j ∷ rest

module _ {ℓ} {V : Type ℓ} where
  pub keys-insert : (k : String) (x : V) (d : Dict V) → keys (insert k x d) ≡ add k (keys d)
  unfolding insert
  keys-insert k x [] = refl
  keys-insert k x ((j, y) ∷ d) = elim (Bool-cases (str_eq j k)) [
    | inl e ↦ rw e refl
    | inr e ↦ rw (e, keys-insert k x d) refl
  ]

  pub keys-remove : (k : String) (d : Dict V) → keys (remove k d) ≡ without k (keys d)
  unfolding remove
  keys-remove k [] = refl
  keys-remove k ((j, y) ∷ d) = elim (Bool-cases (str_eq j k)) [
    | inl e ↦ rw (e, keys-remove k d) refl
    | inr e ↦ rw (e, keys-remove k d) refl
  ]

  pub lookup-there :
      (k j : String) (x : V) (d : Dict V)
      → lookup k ((j, x) ∷ d) ≡ none
      → (str_eq j k ≡ false) × (lookup k d ≡ none)
  unfolding lookup
  lookup-there k j x d h = elim (Bool-cases (str_eq j k)) [
    | inl e ↦ absurd (never (rw e at h))
    | inr e ↦ (e, rw e at h)
  ]
    where
      never : some x ≡ none → ⊥
      never e = cc

  -- A new key goes to the end.
  pub insert-new :
      (k : String) (x : V) (d : Dict V) → lookup k d ≡ none → insert k x d ≡ d ++ (k, x) ∷ []
  unfolding insert
  insert-new k x [] h = refl
  insert-new k x ((j, y) ∷ d) h =
      let (other, rest) = lookup-there k j y d h in rw (other, insert-new k x d rest) refl

  pub remove-missing : (k : String) (d : Dict V) → lookup k d ≡ none → remove k d ≡ d
  unfolding remove
  remove-missing k [] h = refl
  remove-missing k ((j, y) ∷ d) h =
      let (other, rest) = lookup-there k j y d h in rw (other, remove-missing k d rest) refl

  lookup-remove : (k j : String) (d : Dict V) → lookup j d ≡ none → lookup j (remove k d) ≡ none
  unfolding remove lookup
  lookup-remove k j [] h = refl
  lookup-remove k j ((i, y) ∷ d) h =
      let (other, rest) = lookup-there j i y d h in
      elim (Bool-cases (str_eq i k)) [
        | inl e ↦ rw (e, lookup-remove k j d rest) refl
        | inr e ↦ rw (e, other, lookup-remove k j d rest) refl
      ]

  pub remove-IsDict : (k : String) (d : Dict V) → IsDict d → IsDict (remove k d)
  unfolding remove
  remove-IsDict k [] h = tt
  remove-IsDict k ((j, y) ∷ d) h = elim (Bool-cases (str_eq j k)) [
    | inl e ↦ rw e (remove-IsDict k d h.1)
    | inr e ↦ rw e (lookup-remove k j d h.0, remove-IsDict k d h.1)
  ]

  lookup-append :
      (j k : String) (x : V) (d : Dict V)
      → lookup j d ≡ none
      → str_eq k j ≡ false
      → lookup j (d ++ (k, x) ∷ []) ≡ none
  unfolding lookup
  lookup-append j k x [] h n = rw n refl
  lookup-append j k x ((i, y) ∷ d) h n =
      let (other, rest) = lookup-there j i y d h in rw (other, lookup-append j k x d rest n) refl

  pub append-IsDict :
      (k : String) (x : V) (d : Dict V) → lookup k d ≡ none → IsDict d → IsDict (d ++ (k, x) ∷ [])
  unfolding lookup
  append-IsDict k x [] n h = (refl, tt)
  append-IsDict k x ((j, y) ∷ d) n h =
      let (other, rest) = lookup-there k j y d n in
      (lookup-append j k x d h.0 (str_eq-swap j k other), append-IsDict k x d rest h.1)
