-- ===== src/Proxy/Limit.antt =====
-- A limit that Venus OS writes, from the register to the devices and across a restart.
use pv_inverter_master.Base.{ℕ, ◌≤◌, ◌<◌, List, [], ◌∷◌}

-- The value of the interval from `lo` to `hi` that is nearest to `v`; `lo` if there is none.
pub data IsNearest (lo hi v : ℕ) : ℕ → Type 0 where
  raised_to : v < lo → IsNearest lo hi v lo
  kept : lo ≤ v → v ≤ hi → IsNearest lo hi v v
  lowered_to : lo ≤ hi → hi < v → IsNearest lo hi v hi
  crossed : hi < lo → IsNearest lo hi v lo

-- The readback block: the header of Model 123 and its 24 registers, with the limit and the flag.
abbrev pub readback : ℕ → ℕ → List ℕ
readback limit flag =
    123 ∷ 24 ∷ 0 ∷ 0 ∷ 0 ∷ limit ∷ 0 ∷ 0 ∷ 0 ∷ flag ∷ 0 ∷ 0 ∷ 0 ∷ 0 ∷ 0 ∷ 0 ∷ 0 ∷ 0 ∷ 0 ∷ 0 ∷ 0 ∷ 0
    ∷ 0 ∷ 0 ∷ 0 ∷ 0 ∷ []
