-- ===== src/Proxy/Tests.antt =====
-- The theorems of the write path at a concrete server.
use pv_inverter_master.Base.{◌+◌, ◌≡◌, ◌≤◌, refl, true, false, none, some, List, [], ◌∷◌, arith, ap}
use pv_inverter_master.Cache
use pv_inverter_master.Cache.{BlockWrite}
use pv_inverter_master.Context.{AppContext}
use pv_inverter_master.Control.{ControlState, Clock, initial, is_model_123_address}
use pv_inverter_master.Control.Validity.{IsValid}
use pv_inverter_master.Control.Storage.{complete, Disk}
use pv_inverter_master.Control.Override
use pv_inverter_master.StateFile
use pv_inverter_master.Proxy
use pv_inverter_master.Proxy.{
  Slave, Distribution, Reply, ok, busy, bad_enable, handle_write, async_set_values, clamp_limit,
  detect,
}
use pv_inverter_master.Proxy.Writes.{
  limit_addr, enable_addr, limit_rejected, enable_written, clamp_limit_bounds,
  beside_control_registers,
}
use pv_inverter_master.Proxy.Maintenance.{Write}
use pv_inverter_master.Proxy.Gate.{other_write_passes, async_set_values-IsValid}
use pv_inverter_master.Proxy.Lock.{relock, handle_write-relock}
use pv_inverter_master.Proxy.Inflight.{
  Server, Counts, begin, Reach, here, next, Reach-Counts, drain_inflight, drain_inflight-leb,
}

abbrev app : AppContext
app = record {
  venus_os_detected = false;
  venus_os_detected_ts = 0;
  venus_os_client_ip = "";
  last_modbus_client_ip = "10.0.0.7";
  maintenance_mode = false;
  maintenance_entered_at = none;
  override_log = some Override.empty;
}

abbrev disk : Disk
disk = record {
  last_limit = none;
  ui_state = none;
  state_json = StateFile.missing;
  last_limit_write = complete;
  ui_state_write = complete;
  state_json_writable = true;
}

abbrev control : ControlState
control = record initial { clamp_min_pct = 10; clamp_max_pct = 80 }

abbrev slave : Slave
slave = record {
  cache = Cache.new [] 30000;
  control = control;
  app = some app;
  has_distributor = true;
  disk = disk;
  passed = [];
  distributed = [];
  last_successful_read = 0;
  read_count = 0;
  inflight_count = 0;
  inflight_drained = true;
}

abbrev clock : Clock
clock = record { wall = 1700000000000; mono = 5000 }

limit_rejected_example :
    (handle_write clock limit_addr (150 ∷ []) slave).0
    ≡ record slave { app = detect true clock (some app) }
limit_rejected_example = ap (λ p. p.0) (limit_rejected clock 150 [] slave refl (omega arith)).1

enable_written_example : (handle_write clock enable_addr (1 ∷ []) slave).0.control.wmaxlim_ena ≡ 1
enable_written_example = ((enable_written clock 1 [] slave refl refl).0 (omega arith)).1

clamp_limit_bounds_example : clamp_limit control 95 ≤ 80
clamp_limit_bounds_example = (clamp_limit_bounds control 95).2 (omega arith) (omega arith)

beside_control_registers_example :
    (handle_write clock (40149 + 4) (7 ∷ 250 ∷ []) slave).0.control ≡ control
beside_control_registers_example =
    (beside_control_registers clock 4 7 (250 ∷ []) slave refl refl (omega arith) (λ e. cc)
      (λ e. cc)).1

abbrev writes : List Write
writes =
    record { now = clock; address = limit_addr; values = 50 ∷ [] }
    ∷ record { now = clock; address = 40000; values = 1 ∷ 2 ∷ [] }
    ∷ record { now = clock; address = 40148; values = 1 ∷ 2 ∷ [] }
    ∷ []

other_write_passes_example : (handle_write clock 40000 (1 ∷ 2 ∷ []) slave).1 ≡ ok
unfolding is_model_123_address
other_write_passes_example = ap (λ p. p.1) (other_write_passes clock 40000 (1 ∷ 2 ∷ []) slave refl)

control-IsValid : IsValid control
control-IsValid = ground arith

async_set_values-IsValid_example :
    IsValid (async_set_values clock limit_addr (95 ∷ []) slave).0.control
async_set_values-IsValid_example =
    async_set_values-IsValid clock limit_addr (95 ∷ []) slave control-IsValid

handle_write-relock_example :
    (handle_write clock limit_addr (50 ∷ []) (relock true none slave)).1
    ≡ (handle_write clock limit_addr (50 ∷ []) slave).1
handle_write-relock_example =
    ap (λ p. p.1) (handle_write-relock true none clock limit_addr (50 ∷ []) slave)

abbrev server : Server
server = record { slave = slave; outstanding = 0 }

server-Counts : Counts server
server-Counts = record { exact = refl; drained = λ _. refl; busy = λ h. absurd (h refl) }

abbrev busy_server : Server
busy_server = record {
  slave = (handle_write clock limit_addr (50 ∷ []) (Proxy.enter slave)).0;
  outstanding = 1;
}

one_write : Reach server busy_server
one_write = next here (begin server clock limit_addr (50 ∷ []))

Reach-Counts_example : Counts busy_server
Reach-Counts_example = Reach-Counts server-Counts one_write

drain_inflight-leb_example : drain_inflight 3 (some slave) ≡ true
drain_inflight-leb_example = drain_inflight-leb 3 server server-Counts
