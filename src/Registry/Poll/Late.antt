-- ===== src/Registry/Poll/Late.antt =====
-- A successful poll whose collector or callback raises.
use pv_inverter_master.Base.{
  ℕ, ◌+◌, ◌≡◌, refl, ap, ◌∙◌, String, Bool, true, false, ◌||◌, Option, none, some, Bool-cases, inl,
  inr, ◌⊎◌, arith,
}
use pv_inverter_master.Json.{truthy}
use pv_inverter_master.Connection.{on_poll_success, on_poll_failure}
use pv_inverter_master.Registry.{PollData}
use pv_inverter_master.Registry.Poll.{
  AcPower, unavailable, overflow, milliwatts, extract_ac_power, successful, Round, PollState,
  reconnect, with_device, poll_error, good_poll, persist_serial, finish, measure, overflows,
  after_success, polled, poll_round, unless_paused,
}

persist_serial-device :
    (id : String) (e : Round) (s : PollState) → (persist_serial id e s).device ≡ s.device
unfolding persist_serial
persist_serial-device id e s = elim (Bool-cases (truthy e.serial)) [
  | inl on ↦ rw on refl
  | inr off ↦ rw off refl
]

measure-device : (a : AcPower) (now : ℕ) (s : PollState) → (measure a now s).device ≡ s.device
measure-device unavailable now s = refl
measure-device overflow now s = refl
measure-device (milliwatts p) now s = refl

reconnect-device : (c : Option Bool) (s : PollState) → (reconnect c s).device ≡ s.device
reconnect-device none s = refl
reconnect-device (some true) s = refl
reconnect-device (some false) s = refl

finish-raised :
    (id : String) (e : Round) (s : PollState)
    → e.callback_raises ≡ true
    → (finish id e s).device ≡ poll_error e.now s.device
unfolding finish
finish-raised id e s bad = rw bad (ap (poll_error e.now) (persist_serial-device id e s))

after_success-raised :
    (id : String) (p : PollData) (e : Round) (s : PollState)
    → (e.collector_raises ≡ true) ⊎ (e.callback_raises ≡ true)
    → (after_success id p e s).device ≡ poll_error e.now s.device
unfolding after_success
after_success-raised id p e s bad =
    let power = extract_ac_power p.inverter_registers in
    elim (Bool-cases (e.collector_raises || overflows power s.tracked)) [
      | inl early ↦ rw early refl
      | inr passed ↦ rw passed (
          finish-raised id e (measure power e.now s) (late (overflows power s.tracked) bad passed)
          ∙ ap (poll_error e.now) (measure-device power e.now s))
    ]
  where
    late :
        (b : Bool)
        → (e.collector_raises ≡ true) ⊎ (e.callback_raises ≡ true)
        → e.collector_raises || b ≡ false
        → e.callback_raises ≡ true
    late b (inr k) q = k
    late b (inl k) q = absurd (ground arith)

-- A poll that succeeds, but whose collector or callback raises, is counted twice, once as a success,
-- and its device has then failed once although it answered.
pub late_error_counts_twice :
    (id : String) (interval : ℕ) (p : PollData) (e : Round) (s : PollState)
    → e.paused ≡ false
    → e.result ≡ successful p
    → (e.collector_raises ≡ true) ⊎ (e.callback_raises ≡ true)
    → let d = (poll_round id interval e s).0.device in
      (d.total ≡ s.device.total + 2)
      × (d.success ≡ s.device.success + 1)
      × (d.conn_mgr ≡ on_poll_failure e.now (on_poll_success s.device.conn_mgr))
unfolding poll_round polled poll_error good_poll
late_error_counts_twice id interval p e s on ok bad =
    let begun = reconnect e.connected s in
    let same : (poll_round id interval e s).0.device ≡ poll_error e.now (good_poll p s.device) =
      ap (λ b. (unless_paused b interval s (polled id e.result e begun)).0.device) on
      ∙ ap (λ r. (polled id r e begun).device) ok
      ∙ after_success-raised id p e (with_device (good_poll p) begun) bad
      ∙ ap (λ d. poll_error e.now (good_poll p d)) (reconnect-device e.connected s) in
    (
      ap (λ d. d.total) same ∙ twice s.device.total,
      ap (λ d. d.success) same,
      ap (λ d. d.conn_mgr) same,
    )
  where
    twice : (n : ℕ) → n + 1 + 1 ≡ n + 2
    twice n = omega arith
