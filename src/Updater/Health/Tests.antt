-- ===== src/Updater/Health/Tests.antt =====
-- The theorems of the health check at a release that comes up after two rounds.
use pv_inverter_master.Base.{ℕ, zero, suc, ◌+◌, ◌*◌, ◌≡◌, refl, ◌≤◌, true, some, arith}
use pv_inverter_master.Json.{text, object, Fields, end, field, get}
use pv_inverter_master.Updater.Health.{
  default_config, HealthCheckOutcome, stable_ok, Reply, unreachable, body, Round, wait_for_healthy,
  response, loop, top, probe, is_mismatch, is_required_ok, any_ok,
}
use pv_inverter_master.Updater.Health.Termination.{Paced, wait_for_healthy_ends}
use pv_inverter_master.Updater.Health.Stable.{Justified, success-Justified}
use pv_inverter_master.Updater.Health.Liveness.{Warming, Healthy, InTime, release_passes}

abbrev in_order : Fields
in_order = field "version" (text "8.1") (
    field "status" (text "ok") (
      field "webapp" (text "ok") (
        field "modbus_server" (text "ok")
          (field "devices" (object (field "solar" (text "ok") end)) end))))

abbrev reply_at : ℕ → Reply
reply_at zero = unreachable
reply_at (suc zero) = unreachable
reply_at (suc (suc i)) = body (object in_order)

abbrev rounds : ℕ → Round
rounds i = record {
  now = 1000 + i * 5000;
  flag = true;
  flag_after = true;
  is_active = true;
  reply = reply_at i;
}

paced : Paced 5000 1000 rounds
paced = (omega arith, λ i. omega arith)

wait_for_healthy_ends_example :
    (o : HealthCheckOutcome) × (wait_for_healthy default_config (some "8.1") 1000 rounds 13
      ≡ some o)
    × (o.probes ≤ 12)
wait_for_healthy_ends_example =
    wait_for_healthy_ends default_config (some "8.1") 1000 rounds 12 paced (omega arith)

abbrev outcome : HealthCheckOutcome
outcome = record {
  success = true;
  reason = stable_ok;
  last_response = response (object in_order);
  probes = 5;
  consecutive_ok = 3;
}

success-Justified_example : Justified default_config (some "8.1") 1000 rounds outcome
unfolding wait_for_healthy loop top probe is_mismatch get is_required_ok any_ok
success-Justified_example =
    success-Justified default_config (some "8.1") 1000 rounds 6 outcome refl refl

warming : Warming default_config (some "8.1") 1000 rounds 2
warming zero h = (refl, omega arith, omega arith)
warming (suc zero) h = (refl, omega arith, omega arith)
warming (suc (suc i)) h = absurd (omega (arith, h))

healthy : Healthy default_config (some "8.1") 1000 rounds 2 5
unfolding is_mismatch get is_required_ok any_ok
healthy zero h k = absurd (omega (arith, h))
healthy (suc zero) h k = absurd (omega (arith, h))
healthy (suc (suc i)) h k = refl

in_time : InTime default_config (some "8.1") 1000 rounds 5
in_time i h = omega (arith, h)

release_passes_example :
    (o : HealthCheckOutcome) × (wait_for_healthy default_config (some "8.1") 1000 rounds 6 ≡ some o)
    × (o.success ≡ true)
release_passes_example =
    release_passes default_config (some "8.1") 1000 rounds 2 warming healthy in_time refl
