-- ===== src/Cache.antt =====
-- src/pv_inverter_proxy/register_cache.py: the register cache with its staleness. The datablock is
-- pymodbus's: the model keeps the list of the writes made to it, first to last. Times are whole
-- milliseconds of the monotonic clock.
pub mod Staleness
use pv_inverter_master.Base.{
  ℕ, ◌+◌, ◌-◌, Bool, true, false, List, [], ◌∷◌, ◌++◌, ltb, if◌then◌else◌,
}

-- A call `setValues(address, values)`.
pub record BlockWrite : Type 0 where
  pub address : ℕ
  pub values : List ℕ

pub record RegisterCache : Type 0 where
  pub datablock : List BlockWrite
  pub staleness_timeout : ℕ
  pub last_successful_poll : ℕ
  pub has_been_updated : Bool

-- `__init__`
unfoldable pub new : List BlockWrite → ℕ → RegisterCache
new block timeout = record {
  datablock = block;
  staleness_timeout = timeout;
  last_successful_poll = 0;
  has_been_updated = false;
}

unfoldable pub update : ℕ → List ℕ → ℕ → RegisterCache → RegisterCache
update address values now c = record c {
  datablock = c.datablock ++ record { address = address; values = values } ∷ [];
  last_successful_poll = now;
  has_been_updated = true;
}

unfoldable pub is_stale : ℕ → RegisterCache → Bool
is_stale now c =
    if c.has_been_updated then ltb c.staleness_timeout (now - c.last_successful_poll) else true
