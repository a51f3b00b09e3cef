-- ===== src/Connection/Invariant.antt =====
-- What holds of a ConnectionManager between two polls, and the edges of its state machine.
use pv_inverter_master.Base.{ℕ, ◌-◌, ◌≤◌, ◌<◌, ◌≡◌, ◌≢◌, none, arith}
use pv_inverter_master.Connection.{
  ConnectionState, connected, reconnecting, night_mode, ConnectionManager, new, on_poll_success,
  on_poll_failure, take_reconnected, initial_backoff, max_backoff, night_mode_threshold,
  failures_before_reconnecting, first_failure,
}

pub record Inv (m : ConnectionManager) : Type 0 where
  pub backoff_low : initial_backoff ≤ m.backoff
  pub backoff_high : m.backoff ≤ max_backoff
  pub connected_fresh : m.state ≡ connected → m.backoff ≡ initial_backoff
  pub connected_few : m.state ≡ connected → m.consecutive_failures < failures_before_reconnecting
  pub down_timed : m.state ≢ connected → m.first_failure_time ≢ none
  pub untimed_clean : m.first_failure_time ≡ none → m.consecutive_failures ≡ 0
  pub timed_dirty : m.first_failure_time ≢ none → 0 < m.consecutive_failures

pub new-Inv : (interval : ℕ) → Inv (new interval)
unfolding new
new-Inv interval = ground arith

pub on_poll_success-Inv : (m : ConnectionManager) → Inv m → Inv (on_poll_success m)
unfolding on_poll_success
on_poll_success-Inv m h = ground arith

pub on_poll_failure-Inv : (now : ℕ) (m : ConnectionManager) → Inv m → Inv (on_poll_failure now m)
unfolding on_poll_failure
on_poll_failure-Inv now m h = ground arith

pub take_reconnected-Inv : (m : ConnectionManager) → Inv m → Inv (take_reconnected m).0
unfolding take_reconnected
take_reconnected-Inv m h = ground arith

-- The edges that a failed poll can take. There is one from `connected` straight to `night_mode`.
infix 40 ◌⟶◌
pub data ◌⟶◌ : ConnectionState → ConnectionState → Type 0 where
  stay : {s : ConnectionState} → s ⟶ s
  lose : connected ⟶ reconnecting
  give_up : reconnecting ⟶ night_mode
  skip : connected ⟶ night_mode

-- A failed poll makes one move of the state diagram: it stays, or goes from connected to reconnecting
-- or to night mode, or from reconnecting to night mode.
pub on_poll_failure-⟶ : (now : ℕ) (m : ConnectionManager) → m.state ⟶ (on_poll_failure now m).state
unfolding on_poll_failure
on_poll_failure-⟶ now m = grind (arith, stay, lose, give_up, skip)

-- A manager enters night mode exactly when it was not in it and the failures have lasted for more
-- than the threshold.
pub enters_night_iff :
    (now : ℕ) (m : ConnectionManager)
    → m.state ≢ night_mode
    → ((on_poll_failure now m).state ≡ night_mode
        → night_mode_threshold < now - first_failure m.first_failure_time now)
      × (night_mode_threshold < now - first_failure m.first_failure_time now
          → (on_poll_failure now m).state ≡ night_mode)
unfolding on_poll_failure
enters_night_iff now m h = ground arith
