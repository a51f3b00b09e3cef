-- ===== src/Distributor/Commands.antt =====
-- What the distributor sends to one device: `_send_limit` with its dead time, `flush_pending`,
-- `_send_binary_command` with its cooldown, `_record_target`, and the state that the dashboard shows.
pub mod DeadTime
pub mod Cooldown
use pv_inverter_master.Base.{
  ℕ, ◌+◌, ◌-◌, ◌*◌, max, String, Bool, true, false, not, ◌&&◌, ◌||◌, Option, none, some, List, [],
  ◌∷◌, ltb, leb, ◌==◌, if◌then◌else◌,
}
use pv_inverter_master.Throttle.{ThrottleCaps}
use pv_inverter_master.Distributor.Device.{Device, is_binary_caps, is_in_startup}

-- How a call of a plugin ends: with success, without, or with an exception.
pub data Answer : Type 0 where
  done failed raised : Answer

-- `write_power_limit(enable, limit, force)` and `switch(on)` of a device's plugin.
pub data Command : Type 0 where
  write_power_limit : String → Bool → ℕ → Bool → Command
  switch : String → Bool → Command

-- `target_change_tolerance_pct` is 2: whether a new target is taken for the old one.
abbrev pub distance : ℕ → ℕ → ℕ
distance a b = (a - b) + (b - a)

abbrev pub is_same_target : Option ℕ → ℕ → Bool
is_same_target none new = false
is_same_target (some old) new =
    if old == 0 then new == 0 else leb (distance new old * 100) (2 * old)

-- `_record_target`, at a limit in tenths of a percent; the target is in milliwatts.
unfoldable pub record_target : ℕ → ℕ → Device → Device
record_target now limit d =
    let new = limit * d.entry.rated_power in
    if is_same_target d.target_power new
    then d
    else record d { target_power = some new; target_set = some now }

-- After a `write_power_limit`.
unfoldable pub settle_limit : Answer → ℕ → ℕ → Device → Device
unfolding record_target
settle_limit done now limit d =
    record_target now limit
      (record d { current_limit = limit; last_write = some now; pending_limit = none })
settle_limit _ now limit d = d

-- `elapsed < dead_time`; without a write before, the elapsed time is infinite.
abbrev pub is_within : Option ℕ → ℕ → ℕ → Bool
is_within none now time = false
is_within (some t) now time = ltb (now - t) time

unfoldable pub send_limit : ℕ → Answer → ℕ → Bool → Bool → Device → Device × List Command
unfolding settle_limit
send_limit now answer limit enable force d =
    if not force && ltb 0 d.entry.dead_time && is_within d.last_write now d.entry.dead_time
    then (record d { pending_limit = some limit }, [])
    else (settle_limit answer now limit d, write_power_limit d.device_id enable limit force ∷ [])

unfoldable pub flush_limit : Option ℕ → ℕ → Answer → Bool → Device → Device × List Command
flush_limit none now answer enable d = (d, [])
flush_limit (some limit) now answer enable d =
    if is_within d.last_write now d.entry.dead_time
    then (d, [])
    else send_limit now answer limit enable false (record d { pending_limit = none })

-- `flush_pending` at one device. `_send_limit` catches every exception, so the handler that would
-- restore the pending limit is never reached.
unfoldable pub flush_pending : ℕ → Answer → Bool → Device → Device × List Command
unfolding flush_limit
flush_pending now answer enable d = flush_limit d.pending_limit now answer enable d

unfoldable pub startup_after : Bool → ℕ → ThrottleCaps → Device → Device
startup_after true now c d = record d { startup_until = now + c.startup_delay }
startup_after false now c d = d

abbrev relay_limit : Bool → ℕ
relay_limit true = 1000
relay_limit false = 0

-- After a `switch`.
unfoldable pub settle_switch : Answer → ℕ → Bool → ThrottleCaps → Device → Device
unfolding startup_after record_target
settle_switch done now on c d =
    record_target now (relay_limit on)
      (startup_after on now c (record d { relay_on = on; last_toggle = some now }))
settle_switch _ now on c d = d

abbrev pub same_bool : Bool → Bool → Bool
same_bool true b = b
same_bool false b = not b

unfoldable pub switch_with :
    Option ThrottleCaps → ℕ → Answer → Bool → Bool → Device → Device × List Command
unfolding settle_switch
switch_with none now answer on force d = (d, [])
switch_with (some c) now answer on force d =
    if not force && is_within d.last_toggle now c.cooldown
    then (d, [])
    else (settle_switch answer now on c d, switch d.device_id on ∷ [])

-- `_send_binary_command`
unfoldable pub send_binary_command : ℕ → Answer → Bool → Bool → Device → Device × List Command
unfolding switch_with
send_binary_command now answer on force d =
    if same_bool d.relay_on on then (d, []) else switch_with d.caps now answer on force d

pub data ThrottleState : Type 0 where
  disabled startup cooldown throttled active : ThrottleState

abbrev cooling : Option ThrottleCaps → Option ℕ → ℕ → Bool
cooling none toggled now = false
cooling (some c) toggled now = is_binary_caps (some c) && is_within toggled now c.cooldown

-- `throttle_state` of `get_device_display_state`
unfoldable pub display_state : ℕ → Device → ThrottleState
display_state now d =
    if not d.entry.throttle_enabled
    then disabled
    else if is_in_startup now d
    then startup
    else if cooling d.caps d.last_toggle now
    then cooldown
    else if ltb d.current_limit 1000 || not d.relay_on
    then throttled
    else active
