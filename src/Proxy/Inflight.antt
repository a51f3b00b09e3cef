-- ===== src/Proxy/Inflight.antt =====
-- Writes that are in flight: `async_setValues` awaits the distributor, and other writes begin and end
-- meanwhile. What runs without an await is one step; `drain_inflight_modbus` of
-- updater/maintenance.py waits until none is left.
use pv_inverter_master.Base.{
  ℕ, zero, suc, ◌+◌, ◌-◌, ◌<◌, ◌≡◌, ◌≢◌, refl, inl, inr, Bool, true, false, Option, none, some,
  List, leb, ◌==◌, if◌then◌else◌, arith, Bool-cases,
}
use pv_inverter_master.Control.{Clock}
use pv_inverter_master.Proxy.{
  Slave, handle_write, enter, leave, distribute, set_limit, set_enable, detect,
}
use pv_inverter_master.Proxy.Dispatch.{handle_write-cases, handled_keeps}

-- The slave context, with the number of writes that were begun and not ended.
pub record Server : Type 0 where
  pub slave : Slave
  pub outstanding : ℕ

pub data Step : Server → Server → Type 0 where
  begin :
      (v : Server) (now : Clock) (address : ℕ) (values : List ℕ)
      → Step v (record {
        slave = (handle_write now address values (enter v.slave)).0;
        outstanding = v.outstanding + 1;
      })
  finish :
      (v : Server)
      → 0 < v.outstanding
      → Step v (record { slave = leave v.slave; outstanding = v.outstanding - 1 })

pub data Reach (v : Server) : Server → Type 0 where
  here : Reach v v
  next : {t u : Server} → Reach v t → Step t u → Reach v u

-- The counter is the number of writes in flight, and the event is set exactly when there is none.
pub record Counts (v : Server) : Type 0 where
  pub exact : v.slave.inflight_count ≡ v.outstanding
  pub drained : v.outstanding ≡ 0 → v.slave.inflight_drained ≡ true
  pub busy : v.outstanding ≢ 0 → v.slave.inflight_drained ≡ false

abbrev flight : Slave → ℕ × Bool
flight s = (s.inflight_count, s.inflight_drained)

flight-distribute : (s : Slave) → flight (distribute s) ≡ flight s
unfolding distribute
flight-distribute s = ground arith

flight-set_limit : (now : Clock) (v : ℕ) (s : Slave) → flight (set_limit now v s) ≡ flight s
unfolding set_limit
flight-set_limit now v s = refl

flight-set_enable : (now : Clock) (v : ℕ) (s : Slave) → flight (set_enable now v s) ≡ flight s
unfolding set_enable
flight-set_enable now v s = refl

flight-handle_write :
    (now : Clock) (address : ℕ) (values : List ℕ) (s : Slave)
    → flight (handle_write now address values s).0 ≡ flight s
flight-handle_write now address values s =
    handle_write-cases (λ p. flight p.0 ≡ flight s) now address values s (λ hit. refl)
      (handled_keeps flight flight-distribute (λ a vs t. refl) flight-set_limit flight-set_enable
        now address values (record s { app = detect true now s.app }))
      refl

Step-Counts : {v w : Server} → Step v w → Counts v → Counts w
unfolding enter leave
Step-Counts (begin v now address values) h =
    let kept = flight-handle_write now address values (enter v.slave) in ground (arith, kept)
Step-Counts (finish v pos) h = ground arith

-- In every interleaving of writes, from a server that counts right, the counter is the number of
-- writes in flight, and the drained event is set exactly when there is none.
pub Reach-Counts : {v w : Server} → Counts v → Reach v w → Counts w
Reach-Counts h here = h
Reach-Counts h (next r st) = Step-Counts st (Reach-Counts h r)

-- `drain_inflight_modbus` with a slave context: `ends` writes end before the time is up, and the wait
-- returns as soon as the event is set.
unfoldable pub wait_drained : ℕ → Slave → Bool
wait_drained zero s = s.inflight_drained
wait_drained (suc ends) s = if s.inflight_drained then true else wait_drained ends (leave s)

unfoldable pub drain_inflight : ℕ → Option Slave → Bool
unfolding wait_drained
drain_inflight ends none = true
drain_inflight ends (some s) = if s.inflight_count == 0 then true else wait_drained ends s

wait_drained-leb :
    (ends : ℕ) (v : Server) → Counts v → wait_drained ends v.slave ≡ leb v.outstanding ends
unfolding wait_drained
wait_drained-leb zero v h = ground arith
wait_drained-leb (suc ends) v h = elim (Bool-cases (v.outstanding == 0)) [
  | inl idle ↦ ground arith
  | inr some_left ↦
      let v' : Server = record { slave = leave v.slave; outstanding = v.outstanding - 1 } in
      ground (arith, wait_drained-leb ends v' (Step-Counts (finish v (ground arith)) h))
]

-- With n writes in flight and no new one, the drain succeeds exactly if n of them end in time.
pub drain_inflight-leb :
    (ends : ℕ) (v : Server) → Counts v → drain_inflight ends (some v.slave) ≡ leb v.outstanding ends
unfolding drain_inflight
drain_inflight-leb ends v h = ground (arith, wait_drained-leb ends v h)
