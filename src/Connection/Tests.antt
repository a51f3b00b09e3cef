-- ===== src/Connection/Tests.antt =====
-- The theorems of the connection manager at concrete runs.
use pv_inverter_master.Base.{◌≡◌, refl, [], ◌∷◌, arith, false, some}
use pv_inverter_master.Connection.{
  ConnectionManager, new, reconnecting, night_mode, on_poll_failure, on_poll_success,
  sleep_duration,
}
use pv_inverter_master.Connection.Invariant.{Inv, ◌⟶◌, enters_night_iff, on_poll_failure-⟶}
use pv_inverter_master.Connection.Traces.{
  run, failures, success, failure, asked, reachable-Inv, tolerates_two_failures, recovers,
}

reachable-Inv_example : Inv (run (failure 1000 ∷ failure 400000 ∷ success ∷ asked ∷ []) (new 1000))
reachable-Inv_example = reachable-Inv (failure 1000 ∷ failure 400000 ∷ success ∷ asked ∷ []) 1000

tolerates_two_failures_example :
    (run (failures (1000 ∷ 2000 ∷ 3000 ∷ [])) (new 1000)).state ≡ reconnecting
unfolding new
tolerates_two_failures_example =
    (tolerates_two_failures 1000 2000 3000 (new 1000) refl refl refl refl (omega arith)
      (omega arith) (omega arith)).2

abbrev asleep : ConnectionManager
asleep = record {
  poll_interval = 1000;
  backoff = 60000;
  first_failure_time = some 1000;
  state = night_mode;
  reconnected_from_night = false;
  consecutive_failures = 9;
}

recovers_example : sleep_duration (on_poll_success asleep) ≡ 1000
recovers_example = (recovers asleep).1

abbrev failing : ConnectionManager
failing = record asleep { state = reconnecting }

enters_night_iff_example : (on_poll_failure 400000 failing).state ≡ night_mode
enters_night_iff_example = (enters_night_iff 400000 failing (λ e. cc)).1 (omega arith)

on_poll_failure-⟶_example : reconnecting ⟶ (on_poll_failure 400000 failing).state
on_poll_failure-⟶_example = on_poll_failure-⟶ 400000 failing
