-- ===== src/Registry/Poll/Counted.antt =====
-- The counters and the connection of a polled device.
use mathlib.Core.Path.{subst}
use pv_inverter_master.Base.{
  ℕ, ◌≤◌, ◌≡◌, refl, sym, String, Bool, true, false, ◌||◌, Option, none, some, List, [], ◌∷◌,
  Bool-cases, inl, inr, ◌⊎◌, arith,
}
use pv_inverter_master.Json.{truthy}
use pv_inverter_master.Connection.{
  ConnectionManager, initial_backoff, max_backoff, on_poll_success, on_poll_failure, sleep_duration,
  new, is_connected,
}
use pv_inverter_master.Connection.Invariant.{Inv, new-Inv, on_poll_success-Inv, on_poll_failure-Inv}
use pv_inverter_master.Registry.{DeviceState, PollData, new_device_state}
use pv_inverter_master.Registry.Poll.{
  AcPower, unavailable, overflow, milliwatts, extract_ac_power, PollResult, raises, unsuccessful,
  successful, Round, PollState, reconnect, with_device, poll_error, failed_poll, good_poll,
  persist_serial, finish, measure, overflows, after_success, polled, poll_round, poll_loop,
  unless_paused,
}

-- A property of the device that the three ends of a poll keep.
module _ (P : DeviceState → Type 0)
    (error : (now : ℕ) (d : DeviceState) → P d → P (poll_error now d))
    (failure : (now : ℕ) (d : DeviceState) → P d → P (failed_poll now d))
    (good : (p : PollData) (d : DeviceState) → P d → P (good_poll p d)) where
  persist_serial-keeps :
      (id : String) (e : Round) (s : PollState) → P s.device → P (persist_serial id e s).device
  unfolding persist_serial
  persist_serial-keeps id e s h = elim (Bool-cases (truthy e.serial)) [
    | inl on ↦ rw on h
    | inr off ↦ rw off h
  ]

  finish-keeps : (id : String) (e : Round) (s : PollState) → P s.device → P (finish id e s).device
  unfolding finish
  finish-keeps id e s h =
      let k = persist_serial-keeps id e s h in
      elim (Bool-cases e.callback_raises) [
        | inl bad ↦ rw bad (error e.now (persist_serial id e s).device k)
        | inr ok ↦ rw ok k
      ]

  measure-keeps : (a : AcPower) (now : ℕ) (s : PollState) → P s.device → P (measure a now s).device
  measure-keeps unavailable now s h = h
  measure-keeps overflow now s h = h
  measure-keeps (milliwatts p) now s h = h

  after_success-keeps :
      (id : String) (p : PollData) (e : Round) (s : PollState)
      → P s.device
      → P (after_success id p e s).device
  unfolding after_success
  after_success-keeps id p e s h =
      let power = extract_ac_power p.inverter_registers in
      elim (Bool-cases (e.collector_raises || overflows power s.tracked)) [
        | inl bad ↦ rw bad (error e.now s.device h)
        | inr ok ↦ rw ok (finish-keeps id e (measure power e.now s) (measure-keeps power e.now s h))
      ]

  polled-keeps :
      (id : String) (r : PollResult) (e : Round) (s : PollState)
      → P s.device
      → P (polled id r e s).device
  unfolding polled
  polled-keeps id raises e s h = error e.now s.device h
  polled-keeps id unsuccessful e s h = failure e.now s.device h
  polled-keeps id (successful p) e s h =
      after_success-keeps id p e (with_device (good_poll p) s) (good p s.device h)

  reconnect-keeps : (c : Option Bool) (s : PollState) → P s.device → P (reconnect c s).device
  reconnect-keeps none s h = h
  reconnect-keeps (some true) s h = h
  reconnect-keeps (some false) s h = h

  unless_paused-keeps :
      (b : Bool) (interval : ℕ) (s s' : PollState)
      → P s.device
      → P s'.device
      → P (unless_paused b interval s s').0.device
  unless_paused-keeps true interval s s' h k = h
  unless_paused-keeps false interval s s' h k = k

  pub poll_round-keeps :
      (id : String) (interval : ℕ) (e : Round) (s : PollState)
      → P s.device
      → P (poll_round id interval e s).0.device
  unfolding poll_round
  poll_round-keeps id interval e s h =
      unless_paused-keeps e.paused interval s (polled id e.result e (reconnect e.connected s)) h
        (polled-keeps id e.result e (reconnect e.connected s) (reconnect-keeps e.connected s h))

  pub poll_loop-keeps :
      (id : String) (interval : ℕ) (es : List Round) (s : PollState)
      → P s.device
      → P (poll_loop id interval es s).device
  unfolding poll_loop
  poll_loop-keeps id interval [] s h = h
  poll_loop-keeps id interval (e ∷ es) s h =
      poll_loop-keeps id interval es (poll_round id interval e s).0
        (poll_round-keeps id interval e s h)

-- The counters fit each other, the connection is as the polls leave it, and its interval is the loop's.
pub record IsSound (interval : ℕ) (d : DeviceState) : Type 0 where
  pub counted : d.success ≤ d.total
  pub reachable : Inv d.conn_mgr
  pub paced : d.conn_mgr.poll_interval ≡ interval

poll_error-IsSound :
    {interval : ℕ} (now : ℕ) (d : DeviceState)
    → IsSound interval d
    → IsSound interval (poll_error now d)
unfolding poll_error on_poll_failure
poll_error-IsSound now d h = record {
  counted = omega (arith, h.counted);
  reachable = on_poll_failure-Inv now d.conn_mgr h.reachable;
  paced = h.paced;
}

failed_poll-IsSound :
    {interval : ℕ} (now : ℕ) (d : DeviceState)
    → IsSound interval d
    → IsSound interval (failed_poll now d)
unfolding failed_poll on_poll_failure
failed_poll-IsSound now d h = record {
  counted = omega (arith, h.counted);
  reachable = on_poll_failure-Inv now d.conn_mgr h.reachable;
  paced = h.paced;
}

good_poll-IsSound :
    {interval : ℕ} (p : PollData) (d : DeviceState)
    → IsSound interval d
    → IsSound interval (good_poll p d)
unfolding good_poll on_poll_success
good_poll-IsSound p d h = record {
  counted = omega (arith, h.counted);
  reachable = on_poll_success-Inv d.conn_mgr h.reachable;
  paced = h.paced;
}

new-IsSound : (interval : ℕ) → IsSound interval (new_device_state interval)
unfolding new
new-IsSound interval = record { counted = omega arith; reachable = new-Inv interval; paced = refl }

sleep-bounds :
    (interval : ℕ) (m : ConnectionManager)
    → Inv m
    → m.poll_interval ≡ interval
    → (sleep_duration m ≡ interval)
      ⊎ ((initial_backoff ≤ sleep_duration m) × (sleep_duration m ≤ max_backoff))
unfolding sleep_duration
sleep-bounds interval m h e = elim (Bool-cases (is_connected m.state)) [
  | inl up ↦ inl (rw up e)
  | inr down ↦ inr (rw down (h.backoff_low, h.backoff_high))
]

loop-IsSound :
    (id : String) (interval : ℕ) (es : List Round) (s : PollState)
    → IsSound interval s.device
    → IsSound interval (poll_loop id interval es s).device
loop-IsSound id interval =
    poll_loop-keeps (IsSound interval) poll_error-IsSound failed_poll-IsSound good_poll-IsSound id
      interval

round-IsSound :
    (id : String) (interval : ℕ) (e : Round) (s : PollState)
    → IsSound interval s.device
    → IsSound interval (poll_round id interval e s).0.device
round-IsSound id interval =
    poll_round-keeps (IsSound interval) poll_error-IsSound failed_poll-IsSound good_poll-IsSound id
      interval

-- How long a round sleeps: the poll interval, or a backoff of 5 s to 60 s.
abbrev pub IsPaced : ℕ → ℕ → Type 0
IsPaced interval sleep = (sleep ≡ interval) ⊎ ((initial_backoff ≤ sleep) × (sleep ≤ max_backoff))

unless_paused-IsPaced :
    (b : Bool) (interval : ℕ) (s s' : PollState)
    → (b ≡ false → IsSound interval s'.device)
    → IsPaced interval (unless_paused b interval s s').1
unless_paused-IsPaced true interval s s' h = inl refl
unless_paused-IsPaced false interval s s' h =
    let sound = h refl in sleep-bounds interval s'.device.conn_mgr sound.reachable sound.paced

polled-IsSound :
    (id : String) (interval : ℕ) (e : Round) (s : PollState)
    → IsSound interval s.device
    → IsSound interval (polled id e.result e (reconnect e.connected s)).device
polled-IsSound id interval e s h =
    polled-keeps (IsSound interval) poll_error-IsSound failed_poll-IsSound good_poll-IsSound id
      e.result e (reconnect e.connected s)
      (reconnect-keeps (IsSound interval) poll_error-IsSound failed_poll-IsSound good_poll-IsSound
        e.connected s h)

-- Whatever the polls of a new device answer or raise, and however often the loop is paused: after any
-- number of rounds no more successes than polls are counted, the connection manager satisfies its
-- invariant, and the next round sleeps the poll interval, or a backoff of 5 s to 60 s.
pub poll_loop-counts :
    (id : String) (interval : ℕ) (es : List Round) (e : Round) (s : PollState)
    → s.device ≡ new_device_state interval
    → let s' = poll_loop id interval es s in
      (s'.device.success ≤ s'.device.total)
      × Inv s'.device.conn_mgr
      × IsPaced interval (poll_round id interval e s').1
unfolding poll_round
poll_loop-counts id interval es e s new =
    let s' = poll_loop id interval es s in
    let sound =
      loop-IsSound id interval es s (subst (IsSound interval) (sym new) (new-IsSound interval)) in
    (
      sound.counted,
      sound.reachable,
      unless_paused-IsPaced e.paused interval s' (polled id e.result e (reconnect e.connected s'))
          (λ off. polled-IsSound id interval e s' sound),
    )
