-- ===== src/Proxy/Maintenance.antt =====
-- Maintenance mode over any sequence of writes of Venus OS.
use pv_inverter_master.Base.{
  ℕ, ◌+◌, ◌≡◌, Bool, true, ◌&&◌, Option, none, some, List, [], ◌∷◌, length, leb, ltb, if◌then◌else◌,
}
use pv_inverter_master.Cache.{BlockWrite}
use pv_inverter_master.Context.{AppContext}
use pv_inverter_master.Control.{Clock}
use pv_inverter_master.Control.Override.{OverrideLog}
use pv_inverter_master.Proxy.{Slave, Reply, ok, busy, async_set_values, in_maintenance}

pub record Write : Type 0 where
  pub now : Clock
  pub address : ℕ
  pub values : List ℕ

-- A write covers one of the registers 40149 to 40174 of Model 123, in addresses that count from 0.
unfoldable pub touches : Write → Bool
touches w = leb w.address 40174 && ltb 40149 (w.address + length w.values)

pub write_all : List Write → Slave → Slave × List Reply
write_all [] s = (s, [])
write_all (w ∷ ws) s =
    let (s', r) = async_set_values w.now w.address w.values s in
    let (s'', rs) = write_all ws s' in (s'', r ∷ rs)

unfoldable pub busy_where_touched : List Write → List Reply
unfolding touches
busy_where_touched [] = []
busy_where_touched (w ∷ ws) = (if touches w then busy else ok) ∷ busy_where_touched ws

unfoldable pub beside : List Write → List BlockWrite
unfolding touches
beside [] = []
beside (w ∷ ws) =
    let rest = beside ws in
    if touches w then rest else record { address = w.address; values = w.values } ∷ rest

abbrev log_of : Option AppContext → Option OverrideLog
log_of none = none
log_of (some a) = a.override_log

-- What writes leave of a server, but for the application context and what pymodbus was handed.
abbrev pub IsKept : Slave → Slave → Type 0
IsKept s s' =
    (s'.control ≡ s.control)
    × (s'.cache ≡ s.cache)
    × (s'.disk ≡ s.disk)
    × (s'.distributed ≡ s.distributed)
    × (s'.inflight_count ≡ s.inflight_count)
    × (log_of s'.app ≡ log_of s.app)
    × (in_maintenance s'.app ≡ true)
