-- ===== src/Distributor/Poll/Sampled.antt =====
-- The samples of the response time.
use pv_inverter_master.Base.{
  ℕ, ◌+◌, ◌-◌, ◌≡◌, refl, ◌≤◌, Bool, true, false, not, ◌&&◌, Option, none, some, List, [], ◌∷◌,
  ◌++◌, arith, ltb, ◌==◌, if◌then◌else◌, Bool-cases, inl, inr, length, length-append, length-drop,
}
use pv_inverter_master.Throttle.{Ratio, ThrottleCaps}
use pv_inverter_master.Distributor.Device.{Device, is_in_startup}
use pv_inverter_master.Distributor.Commands.{
  Answer, done, failed, raised, flush_pending, flush_limit, is_within, record_target, same_bool,
  send_binary_command, send_limit, settle_limit, settle_switch, startup_after, switch_with,
}
use pv_inverter_master.Distributor.Poll.{
  converged, max_samples, on_poll, poll_target, settle_target, sum, trimmed,
}

-- What happens to a device.
pub data Event : Type 0 where
  limited : ℕ → Answer → ℕ → Bool → Bool → Event
  switched : ℕ → Answer → Bool → Bool → Event
  flushed : ℕ → Answer → Bool → Event
  polled : ℕ → ℕ → Event

unfoldable pub step : Event → Device → Device
step (limited now a limit enable force) d = (send_limit now a limit enable force d).0
step (switched now a on force) d = (send_binary_command now a on force d).0
step (flushed now a enable) d = (flush_pending now a enable d).0
step (polled now actual) d = on_poll now actual d

unfoldable pub run : List Event → Device → Device
run [] d = d
run (e ∷ es) d = run es (step e d)

abbrev pub average : List ℕ → Option Ratio
average xs = if length xs == 0 then none else some (record { num = sum xs; den = length xs })

-- The invariant of the samples.
abbrev pub Sampled : Device → Type 0
Sampled d = (length d.samples ≤ max_samples) × (d.measured_response_time ≡ average d.samples)

abbrev Same : Device → Device → Type 0
Same d d' = (d'.samples ≡ d.samples) × (d'.measured_response_time ≡ d.measured_response_time)

record_target-Same : (now limit : ℕ) (d : Device) → Same d (record_target now limit d)
unfolding record_target
record_target-Same now limit d = ground arith

settle_limit-Same : (now limit : ℕ) (a : Answer) (d : Device) → Same d (settle_limit a now limit d)
unfolding settle_limit
settle_limit-Same now limit done d =
    record_target-Same now limit
      (record d { current_limit = limit; last_write = some now; pending_limit = none })
settle_limit-Same now limit failed d = (refl, refl)
settle_limit-Same now limit raised d = (refl, refl)

send_limit-Same :
    (now limit : ℕ) (a : Answer) (enable force : Bool) (d : Device)
    → Same d (send_limit now a limit enable force d).0
unfolding send_limit
send_limit-Same now limit a enable force d =
    elim (Bool-cases
      (not force && ltb 0 d.entry.dead_time && is_within d.last_write now d.entry.dead_time)) [
        | inl buffered ↦ rw buffered (refl, refl)
        | inr free ↦ rw free (settle_limit-Same now limit a d)
      ]

flush_limit-Same :
    (o : Option ℕ) (now : ℕ) (a : Answer) (enable : Bool) (d : Device)
    → Same d (flush_limit o now a enable d).0
unfolding flush_limit
flush_limit-Same none now a enable d = (refl, refl)
flush_limit-Same (some limit) now a enable d =
    elim (Bool-cases (is_within d.last_write now d.entry.dead_time)) [
      | inl early ↦ rw early (refl, refl)
      | inr over ↦
          rw over (send_limit-Same now limit a enable false (record d { pending_limit = none }))
    ]

settle_switch-Same :
    (now : ℕ) (a : Answer) (on : Bool) (c : ThrottleCaps) (d : Device)
    → Same d (settle_switch a now on c d)
unfolding settle_switch startup_after
settle_switch-Same now done true c d =
    record_target-Same now 1000
      (record d { relay_on = true; last_toggle = some now; startup_until = now + c.startup_delay })
settle_switch-Same now done false c d =
    record_target-Same now 0 (record d { relay_on = false; last_toggle = some now })
settle_switch-Same now failed on c d = (refl, refl)
settle_switch-Same now raised on c d = (refl, refl)

switch_with-Same :
    (o : Option ThrottleCaps) (now : ℕ) (a : Answer) (on force : Bool) (d : Device)
    → Same d (switch_with o now a on force d).0
unfolding switch_with
switch_with-Same none now a on force d = (refl, refl)
switch_with-Same (some c) now a on force d =
    elim (Bool-cases (not force && is_within d.last_toggle now c.cooldown)) [
      | inl cooling ↦ rw cooling (refl, refl)
      | inr over ↦ rw over (settle_switch-Same now a on c d)
    ]

send_binary_command-Same :
    (now : ℕ) (a : Answer) (on force : Bool) (d : Device)
    → Same d (send_binary_command now a on force d).0
unfolding send_binary_command
send_binary_command-Same now a on force d = elim (Bool-cases (same_bool d.relay_on on)) [
  | inl same ↦ rw same (refl, refl)
  | inr other ↦ rw other (switch_with-Same d.caps now a on force d)
]

settle_target-Sampled : (now since : ℕ) (d : Device) → Sampled (settle_target now since d)
unfolding settle_target
settle_target-Sampled now since d =
    let all : List ℕ = d.samples ++ ((now - since) ∷ []) in
    let n = length-append d.samples ((now - since) ∷ []) in
    let m = length-drop (length all - max_samples) all in
    let filled : (length (trimmed all) == 0) ≡ false = ground (arith, m, n) in
    (omega (arith, m), rw filled refl)

poll_target-Sampled :
    (target since : Option ℕ) (now actual : ℕ) (d : Device)
    → Sampled d
    → Sampled (poll_target target since now actual d)
unfolding poll_target
poll_target-Sampled none since now actual d h = h
poll_target-Sampled (some target) none now actual d h = h
poll_target-Sampled (some target) (some since) now actual d h =
    elim (Bool-cases (is_in_startup now d)) [
      | inl starting ↦ rw starting h
      | inr running ↦ rw running (elim (Bool-cases (converged target actual)) [
        | inl reached ↦ rw reached (settle_target-Sampled now since d)
        | inr off ↦ rw off h
      ])
    ]

carried-Sampled : (d d' : Device) → Same d d' → Sampled d → Sampled d'
carried-Sampled d d' s h = rw (s.0, s.1) h

step-Sampled : (e : Event) (d : Device) → Sampled d → Sampled (step e d)
unfolding step flush_pending on_poll
step-Sampled (limited now a limit enable force) d h =
    carried-Sampled d (send_limit now a limit enable force d).0
      (send_limit-Same now limit a enable force d) h
step-Sampled (switched now a on force) d h =
    carried-Sampled d (send_binary_command now a on force d).0
      (send_binary_command-Same now a on force d) h
step-Sampled (flushed now a enable) d h =
    carried-Sampled d (flush_limit d.pending_limit now a enable d).0
      (flush_limit-Same d.pending_limit now a enable d) h
step-Sampled (polled now actual) d h =
    poll_target-Sampled d.target_power d.target_set now actual d h

-- Whatever happens to a device: it keeps at most ten samples, and its measured response time is their
-- average, or none without a sample, if that held before.
pub run-Sampled : (es : List Event) (d : Device) → Sampled d → Sampled (run es d)
unfolding run
run-Sampled [] d h = h
run-Sampled (e ∷ es) d h = run-Sampled es (step e d) (step-Sampled e d h)
