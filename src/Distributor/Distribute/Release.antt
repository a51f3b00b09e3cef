-- ===== src/Distributor/Distribute/Release.antt =====
-- The release of all limits.
use pv_inverter_master.Base.{
  ℕ, ◌+◌, ◌≡◌, refl, ap, sym, ◌∙◌, ◌⊎◌, inl, inr, String, Bool, true, false, Option, none, some,
  List, [], ◌∷◌, arith, if◌then◌else◌, Bool-cases,
}
use pv_inverter_master.Throttle.{ThrottleCaps}
use pv_inverter_master.Distributor.Device.{
  Device, sync_devices, is_binary_caps, is_binary_device, is_throttle_eligible,
}
use pv_inverter_master.Distributor.Commands.{
  Answer, done, failed, raised, record_target, same_bool, send_binary_command, send_limit,
  settle_limit, settle_switch, startup_after, switch_with,
}
use pv_inverter_master.Distributor.Distribute.{
  Distributor, Surroundings, release, release_all, distribute_to, distribute,
}

-- A device that can be throttled and whose plugin succeeds runs without a limit: a relay is on, and any
-- other device is at 100 % with nothing pending.
abbrev pub Released : (String → Answer) → Device → Type 0
Released answer d =
    is_throttle_eligible d ≡ true
    → answer d.device_id ≡ done
    → (is_binary_device d ≡ true) × (d.relay_on ≡ true)
      ⊎ (is_binary_device d ≡ false) × (d.current_limit ≡ 1000) × (d.pending_limit ≡ none)

abbrev pub AllReleased : (String → Answer) → List Device → Type 0
AllReleased answer [] = Unit
AllReleased answer (d ∷ ds) = Released answer d × AllReleased answer ds

-- What no command changes.
abbrev Kept : Device → Device → Type 0
Kept d d' =
    (d'.device_id ≡ d.device_id)
    × (is_throttle_eligible d' ≡ is_throttle_eligible d)
    × (is_binary_device d' ≡ is_binary_device d)

record_target_settles :
    (now limit : ℕ) (d : Device)
    → let d' = record_target now limit d in
      Kept d d'
      × (d'.relay_on ≡ d.relay_on)
      × (d'.current_limit ≡ d.current_limit)
      × (d'.pending_limit ≡ d.pending_limit)
unfolding record_target is_throttle_eligible is_binary_device
record_target_settles now limit d = ground arith

settle_switch-on :
    (now : ℕ) (c : ThrottleCaps) (d : Device)
    → let d' = settle_switch done now true c d in Kept d d' × (d'.relay_on ≡ true)
unfolding settle_switch startup_after is_throttle_eligible is_binary_device
settle_switch-on now c d =
    let s = record_target_settles now 1000 (record d {
      relay_on = true;
      last_toggle = some now;
      startup_until = now + c.startup_delay;
    }) in
    (s.0, s.1)

switch_on :
    (now : ℕ) (o : Option ThrottleCaps) (d : Device)
    → is_binary_caps o ≡ true
    → let d' = (switch_with o now done true true d).0 in Kept d d' × (d'.relay_on ≡ true)
unfolding switch_with
switch_on now none d h = absurd (cc)
switch_on now (some c) d h = settle_switch-on now c d

is_on : (b : Bool) → same_bool b true ≡ true → b ≡ true
is_on true h = refl
is_on false h = absurd (cc)

forced_on :
    (now : ℕ) (d : Device)
    → is_binary_device d ≡ true
    → let d' = (send_binary_command now done true true d).0 in Kept d d' × (d'.relay_on ≡ true)
unfolding send_binary_command is_binary_device
forced_on now d h = elim (Bool-cases (same_bool d.relay_on true)) [
  | inl same ↦ rw same ((refl, refl, refl), is_on d.relay_on same)
  | inr other ↦ rw other (switch_on now d.caps d h)
]

forced_limit :
    (now : ℕ) (d : Device)
    → let d' = (send_limit now done 1000 false true d).0 in
      Kept d d' × (d'.current_limit ≡ 1000) × (d'.pending_limit ≡ none)
unfolding send_limit settle_limit is_throttle_eligible is_binary_device
forced_limit now d =
    let s =
      record_target_settles now 1000
        (record d { current_limit = 1000; last_write = some now; pending_limit = none }) in
    (s.0, s.2, s.3)

switch_id :
    (now : ℕ) (a : Answer) (o : Option ThrottleCaps) (d : Device)
    → (switch_with o now a true true d).0.device_id ≡ d.device_id
unfolding switch_with settle_switch
switch_id now a none d = refl
switch_id now done (some c) d = (settle_switch-on now c d).0.0
switch_id now failed (some c) d = refl
switch_id now raised (some c) d = refl

command_id :
    (now : ℕ) (a : Answer) (d : Device)
    → (send_binary_command now a true true d).0.device_id ≡ d.device_id
unfolding send_binary_command
command_id now a d = elim (Bool-cases (same_bool d.relay_on true)) [
  | inl same ↦ rw same refl
  | inr other ↦ rw other (switch_id now a d.caps d)
]

limit_id :
    (now : ℕ) (a : Answer) (d : Device)
    → (send_limit now a 1000 false true d).0.device_id ≡ d.device_id
unfolding send_limit settle_limit
limit_id now done d = (forced_limit now d).0.0
limit_id now failed d = refl
limit_id now raised d = refl

relay_let_go :
    (now : ℕ) (answer : String → Answer) (d : Device)
    → is_binary_device d ≡ true
    → Released answer (send_binary_command now (answer d.device_id) true true d).0
relay_let_go now answer d h e a =
    let obeyed : answer d.device_id ≡ done =
      ap answer (sym (command_id now (answer d.device_id) d)) ∙ a in
    let on = forced_on now d h in rw obeyed (inl (on.0.2 ∙ h, on.1))

limit_let_go :
    (now : ℕ) (answer : String → Answer) (d : Device)
    → is_binary_device d ≡ false
    → Released answer (send_limit now (answer d.device_id) 1000 false true d).0
limit_let_go now answer d h e a =
    let obeyed : answer d.device_id ≡ done =
      ap answer (sym (limit_id now (answer d.device_id) d)) ∙ a in
    let full = forced_limit now d in rw obeyed (inr (full.0.2 ∙ h, full.1, full.2))

release-Released :
    (now : ℕ) (answer : String → Answer) (d : Device) → Released answer (release now answer d).0
unfolding release
release-Released now answer d = elim (Bool-cases (is_throttle_eligible d)) [
  | inr never ↦ rw never (λ e. absurd (cc))
  | inl able ↦ rw able (settled (Bool-cases (is_binary_device d)))
]
  where
    settled :
        (is_binary_device d ≡ true) ⊎ (is_binary_device d ≡ false)
        → Released answer
            (if is_binary_device d
              then send_binary_command now (answer d.device_id) true true d
              else send_limit now (answer d.device_id) 1000 false true d).0
    settled (inl relay) = rw relay (relay_let_go now answer d relay)
    settled (inr other) = rw other (limit_let_go now answer d other)

release_all-Released :
    (now : ℕ) (answer : String → Answer) (ds : List Device)
    → AllReleased answer (release_all now answer ds).0
unfolding release_all
release_all-Released now answer [] = tt
release_all-Released now answer (d ∷ ds) =
    (release-Released now answer d, release_all-Released now answer ds)

-- When limiting is switched off, every device of the registry that can be throttled and whose plugin
-- succeeds is released, whatever its dead time or cooldown: a relay is on, and any other device is
-- at 100 % with nothing pending.
pub disable_releases :
    (s : Surroundings) (limit : ℕ) (p : Distributor)
    → let p' = (distribute s limit false p).0 in
      (p'.enabled ≡ false) × AllReleased s.answer p'.devices
unfolding distribute distribute_to
disable_releases s limit p =
    (refl, release_all-Released s.now s.answer (sync_devices s.managed p.devices))
