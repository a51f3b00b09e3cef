-- ===== src/Updater/RateLimit/Eviction.antt =====
-- What the eviction leaves of the table of last requests.
use pv_inverter_master.Base.{
  ℕ, ◌≡◌, refl, String, Option, none, some, [], ◌∷◌, arith, if◌then◌else◌, Dict, lookup, insert,
  lookup-insert, eq_iff,
}
use pv_inverter_master.Updater.RateLimit.{evict, is_over}

-- No key stands twice.
abbrev pub IsDict : Dict ℕ → Type 0
IsDict [] = Unit
IsDict ((k, t) ∷ d) = (lookup k d ≡ none) × IsDict d

pub insert-IsDict : (k : String) (t : ℕ) (d : Dict ℕ) → IsDict d → IsDict (insert k t d)
unfolding insert lookup
insert-IsDict k t [] h = (refl, tt)
insert-IsDict k t ((j, u) ∷ d) h =
    ground (arith, eq_iff j k, eq_iff k j, insert-IsDict k t d h.1, lookup-insert k j t d)

abbrev pub unless_over : ℕ → ℕ → Option ℕ → Option ℕ
unless_over window now none = none
unless_over window now (some t) = if is_over window now t then none else some t

pub lookup-evict :
    (window now : ℕ) (k : String) (d : Dict ℕ)
    → IsDict d
    → lookup k (evict window now d) ≡ unless_over window now (lookup k d)
unfolding evict lookup
lookup-evict window now k [] h = refl
lookup-evict window now k ((j, t) ∷ d) h =
    ground (arith, eq_iff j k, lookup-evict window now k d h.1)

pub evict-IsDict : (window now : ℕ) (d : Dict ℕ) → IsDict d → IsDict (evict window now d)
unfolding evict
evict-IsDict window now [] h = tt
evict-IsDict window now ((j, t) ∷ d) h =
    ground (arith, evict-IsDict window now d h.1, lookup-evict window now j d h.1)
