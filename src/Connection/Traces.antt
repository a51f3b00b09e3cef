-- ===== src/Connection/Traces.antt =====
-- What holds of a ConnectionManager over every sequence of polls.
use pv_inverter_master.Base.{
  ℕ, ◌+◌, ◌*◌, ◌≤◌, ◌≡◌, ◌≢◌, ◌⊎◌, refl, true, false, none, List, [], ◌∷◌, arith, min,
}
use pv_inverter_master.Connection.{
  connected, reconnecting, night_mode, ConnectionManager, new, on_poll_success, on_poll_failure,
  take_reconnected, initial_backoff, max_backoff, night_mode_threshold, sleep_duration,
}
use pv_inverter_master.Connection.Invariant.{
  Inv, new-Inv, on_poll_success-Inv, on_poll_failure-Inv, take_reconnected-Inv,
}

-- The calls that the poll loop makes on its manager.
pub data Poll : Type 0 where
  success : Poll
  failure : ℕ → Poll
  asked : Poll

abbrev pub call : Poll → ConnectionManager → ConnectionManager
call success m = on_poll_success m
call (failure now) m = on_poll_failure now m
call asked m = (take_reconnected m).0

unfoldable pub run : List Poll → ConnectionManager → ConnectionManager
run [] m = m
run (p ∷ ps) m = run ps (call p m)

call-Inv : (p : Poll) (m : ConnectionManager) → Inv m → Inv (call p m)
call-Inv success m h = on_poll_success-Inv m h
call-Inv (failure now) m h = on_poll_failure-Inv now m h
call-Inv asked m h = take_reconnected-Inv m h

run-Inv : (ps : List Poll) (m : ConnectionManager) → Inv m → Inv (run ps m)
unfolding run
run-Inv [] m h = h
run-Inv (p ∷ ps) m h = run-Inv ps (call p m) (call-Inv p m h)

-- Every manager that the polls of a device lead to satisfies the invariant: the backoff lies
-- between 5 s and 60 s, it is 5 s while connected, a connected manager has seen fewer than three
-- failures in a row, and a failure time is kept exactly while failures are counted.
pub reachable-Inv : (ps : List Poll) (interval : ℕ) → Inv (run ps (new interval))
reachable-Inv ps interval = run-Inv ps (new interval) (new-Inv interval)

-- A number of failed polls at the times of a list.
abbrev pub failures : List ℕ → List Poll
failures [] = []
failures (t ∷ ts) = failure t ∷ failures ts

backoff_step :
    (now : ℕ) (m : ConnectionManager)
    → m.state ≢ connected
    → ((on_poll_failure now m).state ≢ connected)
      × ((on_poll_failure now m).backoff ≡ min (m.backoff * 2) max_backoff)
unfolding on_poll_failure
backoff_step now m h = ground arith

-- The doubling that a run of failures applies, as a closed recursion.
abbrev pub doubled : List ℕ → ℕ → ℕ
doubled [] b = b
doubled (t ∷ ts) b = doubled ts (min (b * 2) max_backoff)

down_backoff :
    (ts : List ℕ) (m : ConnectionManager)
    → m.state ≢ connected
    → ((run (failures ts) m).state ≢ connected)
      × ((run (failures ts) m).backoff ≡ doubled ts m.backoff)
unfolding run
down_backoff [] m h = (h, refl)
down_backoff (t ∷ ts) m h =
    let s = backoff_step t m h in
    let r = down_backoff ts (on_poll_failure t m) s.0 in ground (arith, r, s)

-- From a manager that is connected and has no failure behind it, one or two failed polls within
-- the night threshold leave it connected with its poll interval, and the third disconnects it
-- with a backoff of ten seconds.
pub tolerates_two_failures :
    (a b c : ℕ) (m : ConnectionManager)
    → m.state ≡ connected
    → m.first_failure_time ≡ none
    → m.consecutive_failures ≡ 0
    → m.backoff ≡ initial_backoff
    → a ≤ b
    → b ≤ c
    → c ≤ a + night_mode_threshold
    → (sleep_duration (run (failures (a ∷ [])) m) ≡ m.poll_interval)
      × (sleep_duration (run (failures (a ∷ b ∷ [])) m) ≡ m.poll_interval)
      × ((run (failures (a ∷ b ∷ c ∷ [])) m).state ≡ reconnecting)
      × (sleep_duration (run (failures (a ∷ b ∷ c ∷ [])) m) ≡ 10000)
unfolding run on_poll_failure sleep_duration
tolerates_two_failures a b c m s f n k h i j = ground arith

-- A successful poll recovers from any state that polls lead to: the manager is connected again,
-- sleeps its poll interval, starts from the initial backoff, and reports a return from the night,
-- once, exactly if it was in night mode or such a report was still pending.
pub recovers :
    (m : ConnectionManager)
    → let m' = on_poll_success m in
      (m'.state ≡ connected)
      × (sleep_duration m' ≡ m.poll_interval)
      × (m'.backoff ≡ initial_backoff)
      × ((take_reconnected m').1 ≡ true
          → (m.state ≡ night_mode) ⊎ (m.reconnected_from_night ≡ true))
      × ((m.state ≡ night_mode) ⊎ (m.reconnected_from_night ≡ true)
          → (take_reconnected m').1 ≡ true)
      × ((take_reconnected (take_reconnected m').0).1 ≡ false)
unfolding on_poll_success sleep_duration take_reconnected
recovers m = ground arith
