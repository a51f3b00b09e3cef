-- ===== src/Distributor/Tests.antt =====
-- The theorems of the distributor at concrete devices.
use pv_inverter_master.Base.{
  ℕ, ◌+◌, ◌*◌, ◌≡◌, refl, ◌≤◌, min, Bool, true, false, none, some, List, [], ◌∷◌, arith, All,
}
use pv_inverter_master.Connection.{connected}
use pv_inverter_master.Throttle.{proportional, binary, ThrottleCaps}
use pv_inverter_master.Distributor.Device.{
  Entry, Device, Managed, fresh, is_binary_device, sync_devices,
}
use pv_inverter_master.Distributor.Waterfall.{Target, eligible, waterfall}
use pv_inverter_master.Distributor.Waterfall.Budget.{
  power, rated, waterfall_spends, waterfall-Protects, Protects,
}
use pv_inverter_master.Distributor.Slack.{grants}
use pv_inverter_master.Distributor.Slack.Grants.{grants-Raised, Raised}
use pv_inverter_master.Distributor.Commands.{done, failed, flush_pending}
use pv_inverter_master.Distributor.Commands.DeadTime.{
  Request, send_all, latest_wins, failed_flush_forgets,
}
use pv_inverter_master.Distributor.Commands.Cooldown.{Order, Spaced, toggles, toggles-Spaced}
use pv_inverter_master.Distributor.Distribute.{Distributor, Surroundings, distribute}
use pv_inverter_master.Distributor.Distribute.Release.{AllReleased, disable_releases}
use pv_inverter_master.Distributor.Distribute.Sound.{Allowed, distribute-Allowed}
use pv_inverter_master.Distributor.Poll.Sampled.{limited, polled, run, step, Sampled, run-Sampled}
use pv_inverter_master.Distributor.Poll.Response.{Reading, poll, response_measured}

abbrev entry : Entry
entry = record {
  enabled = true;
  aggregate = true;
  throttle_enabled = true;
  rated_power = 600;
  dead_time = 2000;
}

abbrev fast : ThrottleCaps
fast = record {
  mode = proportional;
  response_time = record { num = 1000; den = 1 };
  cooldown = 0;
  startup_delay = 0;
}

abbrev relay : ThrottleCaps
relay = record {
  mode = binary;
  response_time = record { num = 500; den = 1 };
  cooldown = 300000;
  startup_delay = 30000;
}

abbrev solar : Managed
solar = record {
  entry = record entry { rated_power = 8000 };
  caps = some fast;
  conn = some connected;
}

abbrev plug : Managed
plug = record { entry = entry; caps = some relay; conn = some connected }

abbrev solar_device : Device
solar_device = fresh "solar" solar

abbrev plug_device : Device
plug_device = fresh "plug" plug

abbrev fleet : List Device
fleet = solar_device ∷ plug_device ∷ []

waterfall_spends_example :
    2 * power (waterfall 0 4600000 fleet)
    ≤ 2 * min 4600000 (1000 * rated (eligible 0 fleet)) + rated (eligible 0 fleet)
waterfall_spends_example = (waterfall_spends 0 4600000 fleet).0

waterfall-Protects_example : Protects (waterfall 0 4600000 fleet)
waterfall-Protects_example = (waterfall-Protects 0 4600000 fleet).2

abbrev limited_solar : List Target
limited_solar = record { device = solar_device; limit = 500 } ∷ []

grants-Raised_example : Raised limited_solar (grants 200000 limited_solar)
grants-Raised_example = (grants-Raised 200000 limited_solar (omega arith, tt) (omega arith, tt)).0

abbrev written_at : ℕ → Device
written_at t = record solar_device { last_write = some t }

abbrev soon : Request
soon = record { at = 1500; limit = 400; answer = done }

abbrev sooner_still : Request
sooner_still = record { at = 1200; limit = 700; answer = done }

latest_wins_example : (send_all (sooner_still ∷ soon ∷ []) (written_at 1000)).1 ≡ []
latest_wins_example =
    (latest_wins sooner_still (soon ∷ []) (written_at 1000) 1000 3000 true refl
      (omega arith, (omega arith, tt)) (omega arith)).0

abbrev pending_since : Device
pending_since = record solar_device { last_write = some 1000; pending_limit = some 400 }

failed_flush_forgets_example : (flush_pending 3000 failed true pending_since).0.pending_limit ≡ none
failed_flush_forgets_example =
    (failed_flush_forgets 400 1000 3000 failed true pending_since refl refl (omega arith)
      (λ e. cc)).1

abbrev order : ℕ → Bool → Order
order t on = record { at = t; on = on; answer = done }

toggles-Spaced_example :
    Spaced 300000 none
      (toggles (order 1000 false ∷ order 2000 true ∷ order 400000 true ∷ []) plug_device)
toggles-Spaced_example =
    toggles-Spaced (order 1000 false ∷ order 2000 true ∷ order 400000 true ∷ []) relay plug_device
      refl

abbrev surroundings : Surroundings
surroundings = record {
  now = 5000;
  managed = ("solar", solar) ∷ ("plug", plug) ∷ [];
  answer = λ id. done;
  actual = λ id. none;
}

abbrev distributor : Distributor
distributor = record { devices = []; global_limit = 10000; enabled = true }

disable_releases_example :
    AllReleased surroundings.answer (distribute surroundings 0 false distributor).0.devices
disable_releases_example = (disable_releases surroundings 0 distributor).1

distribute-Allowed_example :
    All
      (Allowed (eligible 5000 (sync_devices surroundings.managed [])))
      (distribute surroundings 5000 true distributor).1
distribute-Allowed_example = distribute-Allowed surroundings 5000 distributor

run-Sampled_example :
    Sampled (run (limited 1000 done 500 true false ∷ polled 1800 4000000 ∷ []) solar_device)
run-Sampled_example =
    run-Sampled (limited 1000 done 500 true false ∷ polled 1800 4000000 ∷ []) solar_device
      (omega arith, refl)

abbrev reading : ℕ → ℕ → Reading
reading t w = record { at = t; actual = w }

response_measured_example :
    (step (poll (reading 1900 4100000)) (
      run
        (poll (reading 1500 7000000) ∷ [])
        (step (limited 1000 done 500 true false) solar_device))).samples
    ≡ 900 ∷ []
unfolding is_binary_device
response_measured_example =
    (response_measured 1000 500 solar_device (reading 1500 7000000 ∷ []) (reading 1900 4100000)
      (reading 2400 4000000 ∷ []) refl refl refl (refl, tt) refl).0
