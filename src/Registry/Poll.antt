-- ===== src/Registry/Poll.antt =====
-- `_device_poll_loop` and `_extract_ac_power` of src/pv_inverter_proxy/device_registry.py: one round, and the loop as a
-- list of rounds. Times are whole milliseconds. What the plugin answers, and whether the collector and
-- the callback raise, come with the round; what the collector keeps is left out.
pub mod Counted
pub mod Late
use pv_inverter_master.Base.{
  ℕ, suc, ◌+◌, ◌-◌, ◌*◌, ◌/◌, ◌^◌, String, Bool, true, false, not, ◌&&◌, ◌||◌, Option, none, some,
  List, [], ◌∷◌, ◌++◌, ◌==◌, ltb, leb, if◌then◌else◌, get_or, length,
}
use pv_inverter_master.Json.{Value, text, Fields, get, put, truthy}
use pv_inverter_master.Config.Checks.{is_text, same_text}
use pv_inverter_master.Connection.{
  ConnectionManager, on_poll_success, on_poll_failure, sleep_duration,
}
use pv_inverter_master.Distributor.Device.{Device}
use pv_inverter_master.Distributor.Poll.{on_poll}
use pv_inverter_master.Registry.{DeviceState, PollData}

-- No power, the OverflowError of Python's `10.0 ** sf`, or whole milliwatts, where what is finer is cut.
pub data AcPower : Type 0 where
  unavailable overflow : AcPower
  milliwatts : ℕ → AcPower

abbrev pub scaled : ℕ → ℕ → AcPower
scaled raw sf =
    if ltb sf 0x8000
    then (if ltb 308 sf then overflow else milliwatts (raw * 1000 * 10 ^ sf))
    else milliwatts (raw * 1000 / 10 ^ (0x10000 - sf))

unfoldable pub extract_ac_power : List ℕ → AcPower
extract_ac_power regs =
    if ltb (length regs) 16
    then unavailable
    else if get_or regs 14 0 == 0xffff || get_or regs 15 0 == 0x8000
    then unavailable
    else scaled (get_or regs 14 0) (get_or regs 15 0)

-- What `plugin.poll()` does.
pub data PollResult : Type 0 where
  raises unsuccessful : PollResult
  successful : PollData → PollResult

-- A round of the loop: what it meets. `connected` is none where the plugin has no such client.
pub record Round : Type 0 where
  pub paused : Bool
  pub connected : Option Bool
  pub result : PollResult
  pub collector_raises : Bool
  pub serial : Value
  pub saves : Bool
  pub callback_raises : Bool
  pub now : ℕ

-- What the loop changes: the state of its device, the device in the distributor if there is one, the
-- entries of the configuration, the number of saves and of connects, and the calls of `on_success`.
pub record PollState : Type 0 where
  pub device : DeviceState
  pub tracked : Option Device
  pub inverters : List Fields
  pub saved : ℕ
  pub connects : ℕ
  pub notified : ℕ

abbrev pub reconnect : Option Bool → PollState → PollState
reconnect (some false) s = record s { connects = s.connects + 1 }
reconnect _ s = s

abbrev pub with_device : (DeviceState → DeviceState) → PollState → PollState
with_device f s = record s { device = f s.device }

-- The handler of an exception: one more poll, and a failure.
unfoldable pub poll_error : ℕ → DeviceState → DeviceState
poll_error now d = record d { total = d.total + 1; conn_mgr = on_poll_failure now d.conn_mgr }

unfoldable pub failed_poll : ℕ → DeviceState → DeviceState
failed_poll now d = record d { total = d.total + 1; conn_mgr = on_poll_failure now d.conn_mgr }

unfoldable pub good_poll : PollData → DeviceState → DeviceState
good_poll p d = record d {
  total = d.total + 1;
  success = d.success + 1;
  conn_mgr = on_poll_success d.conn_mgr;
  last_poll_data = some p;
}

abbrev pub notify : ℕ → ℕ → Option Device → Option Device
notify now power none = none
notify now power (some d) = some (on_poll now power d)

-- The entry of the device gets the serial number that the plugin found, if it has another one.
abbrev pub adopt_serial : String → Value → List Fields → List Fields × Bool
adopt_serial id serial [] = ([], false)
adopt_serial id serial (e ∷ es) =
    let (rest, changed) = adopt_serial id serial es in
    if is_text id (get "id" e) && not (same_text (get "serial" e) serial)
    then (put "serial" serial e ∷ es, true)
    else (e ∷ rest, changed)

abbrev pub count_save : Bool → Bool → ℕ → ℕ
count_save true true n = n + 1
count_save _ _ n = n

pub persist_serial : String → Round → PollState → PollState
persist_serial id e s =
    if truthy e.serial
    then (let (entries, changed) = adopt_serial id e.serial s.inverters in
        record s { inverters = entries; saved = count_save changed e.saves s.saved })
    else s

-- The end of a successful round; the callback may raise.
pub finish : String → Round → PollState → PollState
unfolding persist_serial
finish id e s =
    let s' = persist_serial id e s in
    if e.callback_raises
    then with_device (poll_error e.now) s'
    else record s' { notified = s'.notified + 1 }

abbrev pub measure : AcPower → ℕ → PollState → PollState
measure (milliwatts p) now s = record s { tracked = notify now p s.tracked }
measure _ now s = s

abbrev pub has_tracked : Option Device → Bool
has_tracked none = false
has_tracked (some d) = true

-- The power is extracted only if there is a distributor.
abbrev pub overflows : AcPower → Option Device → Bool
overflows overflow tracked = has_tracked tracked
overflows _ tracked = false

pub after_success : String → PollData → Round → PollState → PollState
unfolding finish
after_success id p e s =
    let power = extract_ac_power p.inverter_registers in
    if e.collector_raises || overflows power s.tracked
    then with_device (poll_error e.now) s
    else finish id e (measure power e.now s)

pub polled : String → PollResult → Round → PollState → PollState
unfolding after_success
polled id raises e s = with_device (poll_error e.now) s
polled id unsuccessful e s = with_device (failed_poll e.now) s
polled id (successful p) e s = after_success id p e (with_device (good_poll p) s)

-- A paused loop does nothing, and sleeps the poll interval.
abbrev pub unless_paused : Bool → ℕ → PollState → PollState → PollState × ℕ
unless_paused true poll_interval s s' = (s, poll_interval)
unless_paused false poll_interval s s' = (s', sleep_duration s'.device.conn_mgr)

-- One round, and how long the loop sleeps behind it.
unfoldable pub poll_round : String → ℕ → Round → PollState → PollState × ℕ
unfolding polled
poll_round id poll_interval e s =
    unless_paused e.paused poll_interval s (polled id e.result e (reconnect e.connected s))

unfoldable pub poll_loop : String → ℕ → List Round → PollState → PollState
poll_loop id poll_interval [] s = s
poll_loop id poll_interval (e ∷ es) s =
    poll_loop id poll_interval es (poll_round id poll_interval e s).0
