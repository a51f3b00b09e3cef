-- ===== src/Distributor/Waterfall/Sorted.antt =====
-- The order of the waterfall.
use pv_inverter_master.Base.{ℕ, ◌≡◌, refl, true, false, List, [], ◌∷◌, arith, Bool-cases, inl, inr}
use pv_inverter_master.Sunspec.{codes}
use pv_inverter_master.Distributor.Device.{Device}
use pv_inverter_master.Distributor.Waterfall.{codes_before, before, place, sorted}

codes_before_asym : (xs ys : List ℕ) → codes_before xs ys ≡ true → codes_before ys xs ≡ false
unfolding codes_before
codes_before_asym [] [] h = cc
codes_before_asym (x ∷ xs) [] h = cc
codes_before_asym [] (y ∷ ys) h = refl
codes_before_asym (x ∷ xs) (y ∷ ys) h = ground (arith, codes_before_asym xs ys)

pub before_asym : (d e : Device) → before d e ≡ true → before e d ≡ false
unfolding before
before_asym d e h = ground (arith, codes_before_asym (codes d.device_id) (codes e.device_id))

-- No device stands directly behind one that comes after it in the order.
abbrev pub IsSorted : List Device → Type 0
IsSorted [] = Unit
IsSorted (d ∷ []) = Unit
IsSorted (d ∷ e ∷ es) = (before e d ≡ false) × IsSorted (e ∷ es)

place-IsSorted_behind :
    (c d : Device) (es : List Device)
    → before d c ≡ false
    → IsSorted (c ∷ es)
    → IsSorted (c ∷ place d es)
unfolding place
place-IsSorted_behind c d [] h s = (h, tt)
place-IsSorted_behind c d (e ∷ es) h s = elim (Bool-cases (before e d)) [
  | inl first ↦ rw first (s.0, place-IsSorted_behind e d es (before_asym e d first) s.1)
  | inr behind ↦ rw behind (h, (behind, s.1))
]

place-IsSorted : (d : Device) (es : List Device) → IsSorted es → IsSorted (place d es)
unfolding place
place-IsSorted d [] s = tt
place-IsSorted d (e ∷ es) s = elim (Bool-cases (before e d)) [
  | inl first ↦ rw first (place-IsSorted_behind e d es (before_asym e d first) s)
  | inr behind ↦ rw behind (behind, s)
]

pub sorted-IsSorted : (ds : List Device) → IsSorted (sorted ds)
unfolding sorted
sorted-IsSorted [] = tt
sorted-IsSorted (d ∷ ds) = place-IsSorted d (sorted ds) (sorted-IsSorted ds)
