-- ===== src/Distributor/Distribute/Sound.antt =====
-- The commands that a global limit sends.
use pv_inverter_master.Base.{
  ℕ, ◌≡◌, refl, inl, inr, ◌≤◌, min, String, Bool, true, false, not, ◌&&◌, Option, none, some, List,
  [], ◌∷◌, ◌++◌, ltb, ◌==◌, Bool-cases, str_eq, eq_iff, All, All-++,
}
use pv_inverter_master.Throttle.{ThrottleCaps}
use pv_inverter_master.Distributor.Device.{Device, sync_devices, is_binary_device, effective_score}
use pv_inverter_master.Distributor.Waterfall.{Target, eligible}
use pv_inverter_master.Distributor.Commands.{
  Answer, Command, write_power_limit, switch, is_within, same_bool, send_binary_command, send_limit,
  switch_with,
}
use pv_inverter_master.Distributor.Distribute.{
  Distributor, Surroundings, binary_ones, distribute, distribute_to, limit_devices, on_device,
  place_slower, plan, proportional, send_limits, send_targets, sort_binary_reenable, switch_all,
  total_rated,
}
use pv_inverter_master.Distributor.Distribute.Plan.{HasId, Fits, plan-Fits}

-- An enabling, unforced limit of at most 100 %, or a switch, for one of the devices.
abbrev pub Allowed : List Device → Command → Type 0
Allowed es (write_power_limit id enable limit force) =
    HasId id es × (enable ≡ true) × (limit ≤ 1000) × (force ≡ false)
Allowed es (switch id on) = HasId id es

send_limit-Allowed :
    (es : List Device) (now : ℕ) (a : Answer) (limit : ℕ) (d : Device)
    → HasId d.device_id es
    → limit ≤ 1000
    → All (Allowed es) (send_limit now a limit true false d).1
unfolding send_limit
send_limit-Allowed es now a limit d h le =
    elim (Bool-cases (ltb 0 d.entry.dead_time && is_within d.last_write now d.entry.dead_time)) [
      | inl buffered ↦ rw buffered tt
      | inr free ↦ rw free ((h, refl, le, refl), tt)
    ]

switch_with-Allowed :
    (es : List Device) (now : ℕ) (a : Answer) (on : Bool) (o : Option ThrottleCaps) (d : Device)
    → HasId d.device_id es
    → All (Allowed es) (switch_with o now a on false d).1
unfolding switch_with
switch_with-Allowed es now a on none d h = tt
switch_with-Allowed es now a on (some c) d h =
    elim (Bool-cases (is_within d.last_toggle now c.cooldown)) [
      | inl cooling ↦ rw cooling tt
      | inr over ↦ rw over (h, tt)
    ]

send_binary_command-Allowed :
    (es : List Device) (now : ℕ) (a : Answer) (on : Bool) (d : Device)
    → HasId d.device_id es
    → All (Allowed es) (send_binary_command now a on false d).1
unfolding send_binary_command
send_binary_command-Allowed es now a on d h = elim (Bool-cases (same_bool d.relay_on on)) [
  | inl same ↦ rw same tt
  | inr other ↦ rw other (switch_with-Allowed es now a on d.caps d h)
]

on_device-All :
    (P : Command → Type 0) (id : String) (f : Device → Device × List Command) (ds : List Device)
    → ((d : Device) → d.device_id ≡ id → All P (f d).1)
    → All P (on_device id f ds).1
unfolding on_device
on_device-All P id f [] h = tt
on_device-All P id f (d ∷ ds) h = elim (Bool-cases (str_eq d.device_id id)) [
  | inl here ↦ rw here (h d ((eq_iff d.device_id id).0 here))
  | inr there ↦ rw there (on_device-All P id f ds h)
]

send_limits-Allowed :
    (es : List Device) (now : ℕ) (answer : String → Answer) (ts : List Target) (ds : List Device)
    → All (Fits es) ts
    → All (Allowed es) (send_limits now answer ts ds).1
unfolding send_limits
send_limits-Allowed es now answer [] ds h = tt
send_limits-Allowed es now answer (t ∷ ts) ds h =
    let id : String = t.device.device_id in
    let f : Device → Device × List Command = send_limit now (answer id) t.limit true false in
    All-++ (Allowed es) (on_device id f ds).1 (send_limits now answer ts (on_device id f ds).0).1
      (on_device-All (Allowed es) id f ds
        (λ d e. send_limit-Allowed es now (answer id) t.limit d (rw e h.0.0) h.0.1))
      (send_limits-Allowed es now answer ts (on_device id f ds).0 h.1)

switch_all-Allowed :
    (es : List Device) (now : ℕ) (answer : String → Answer) (on : Bool) (ts : List Target)
    (ds : List Device)
    → All (Fits es) ts
    → All (Allowed es) (switch_all now answer on ts ds).1
unfolding switch_all
switch_all-Allowed es now answer on [] ds h = tt
switch_all-Allowed es now answer on (t ∷ ts) ds h =
    let id : String = t.device.device_id in
    let f : Device → Device × List Command = send_binary_command now (answer id) on false in
    All-++ (Allowed es) (on_device id f ds).1 (switch_all now answer on ts (on_device id f ds).0).1
      (on_device-All (Allowed es) id f ds
        (λ d e. send_binary_command-Allowed es now (answer id) on d (rw e h.0.0)))
      (switch_all-Allowed es now answer on ts (on_device id f ds).0 h.1)

proportional-All : (P : Target → Type 0) (ts : List Target) → All P ts → All P (proportional ts)
unfolding proportional
proportional-All P [] h = tt
proportional-All P (t ∷ ts) h = elim (Bool-cases (is_binary_device t.device)) [
  | inl relay ↦ rw relay (proportional-All P ts h.1)
  | inr other ↦ rw other (h.0, proportional-All P ts h.1)
]

binary_ones-All :
    (P : Target → Type 0) (on : Bool) (ts : List Target) → All P ts → All P (binary_ones on ts)
unfolding binary_ones
binary_ones-All P on [] h = tt
binary_ones-All P true (t ∷ ts) h = elim (Bool-cases (is_binary_device t.device && ltb 0 t.limit)) [
  | inl taken ↦ rw taken (h.0, binary_ones-All P true ts h.1)
  | inr left ↦ rw left (binary_ones-All P true ts h.1)
]
binary_ones-All P false (t ∷ ts) h =
    elim (Bool-cases (is_binary_device t.device && not (ltb 0 t.limit))) [
      | inl taken ↦ rw taken (h.0, binary_ones-All P false ts h.1)
      | inr left ↦ rw left (binary_ones-All P false ts h.1)
    ]

place_slower-All :
    (P : Target → Type 0) (t : Target) (ts : List Target)
    → P t
    → All P ts
    → All P (place_slower t ts)
unfolding place_slower
place_slower-All P t [] h k = (h, tt)
place_slower-All P t (u ∷ us) h k =
    elim (Bool-cases (ltb (effective_score u.device) (effective_score t.device))) [
      | inl first ↦ rw first (k.0, place_slower-All P t us h k.1)
      | inr behind ↦ rw behind (h, k)
    ]

sort_binary_reenable-All :
    (P : Target → Type 0) (ts : List Target) → All P ts → All P (sort_binary_reenable ts)
unfolding sort_binary_reenable
sort_binary_reenable-All P [] h = tt
sort_binary_reenable-All P (t ∷ ts) h =
    place_slower-All P t (sort_binary_reenable ts) h.0 (sort_binary_reenable-All P ts h.1)

send_targets-Allowed :
    (es : List Device) (now : ℕ) (answer : String → Answer) (ts : List Target) (ds : List Device)
    → All (Fits es) ts
    → All (Allowed es) (send_targets now answer ts ds).1
unfolding send_targets
send_targets-Allowed es now answer ts ds h =
    let first = send_limits now answer (proportional ts) ds in
    let second = switch_all now answer false (binary_ones false ts) first.0 in
    let ons = sort_binary_reenable (binary_ones true ts) in
    let third = switch_all now answer true ons second.0 in
    All-++ (Allowed es) first.1 (second.1 ++ third.1)
      (send_limits-Allowed es now answer (proportional ts) ds (proportional-All (Fits es) ts h))
      (All-++ (Allowed es) second.1 third.1
        (switch_all-Allowed es now answer false (binary_ones false ts) first.0
          (binary_ones-All (Fits es) false ts h))
        (switch_all-Allowed es now answer true ons second.0 (
          sort_binary_reenable-All (Fits es) (binary_ones true ts)
            (binary_ones-All (Fits es) true ts h))))

-- Under a global limit, only devices that can be throttled and are not in their startup get a command,
-- and every limit that is sent is enabled, unforced and at most 100 %.
pub distribute-Allowed :
    (s : Surroundings) (limit : ℕ) (p : Distributor)
    → All
        (Allowed (eligible s.now (sync_devices s.managed p.devices)))
        (distribute s limit true p).1
unfolding distribute distribute_to limit_devices
distribute-Allowed s limit p =
    let ds : List Device = sync_devices s.managed p.devices in
    elim (Bool-cases (total_rated s.now ds == 0)) [
      | inl nothing ↦ rw nothing tt
      | inr something ↦ rw something (
          send_targets-Allowed (eligible s.now ds) s.now s.answer (plan s (min 10000 limit) ds) ds
            (plan-Fits s (min 10000 limit) ds))
    ]
