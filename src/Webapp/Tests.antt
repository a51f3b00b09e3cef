-- ===== src/Webapp/Tests.antt =====
-- The theorems of the web handlers at concrete requests.
use pv_inverter_master.Control.Storage.{complete}
use pv_inverter_master.Base.{◌≡◌, refl, true, none, some, [], arith, pos}
use pv_inverter_master.Json.{Value, integer, text, object, Fields, end, field, get, has_key}
use pv_inverter_master.Control.{initial, Clock, webapp}
use pv_inverter_master.Control.Override.{empty}
use pv_inverter_master.StateFile
use pv_inverter_master.Webapp.{
  Server, FloatRead, at, negative, no_float, power_limit_handler, venus_lock_handler,
}
use pv_inverter_master.Distributor.Commands.{done}
use pv_inverter_master.Webapp.Clamp.{Devices, power_clamp_handler, read_pct}
use pv_inverter_master.Webapp.Clamp.Ceiling.{Ceiling, virtual_clamp}
use pv_inverter_master.Webapp.Limits.{
  Settled, web_limit_accepted, lock_sends_nothing, power_limit_handler-Settled,
}

abbrev to_float : Value → FloatRead
to_float (integer (pos n)) = at n
to_float (integer _) = negative
to_float _ = no_float

abbrev clock : Clock
clock = record { wall = 1700000000000; mono = 5000 }

abbrev server : Server
server = record {
  control = record initial { webapp_revert_at = some 9000; last_source = webapp };
  disk = record {
    last_limit = none;
    ui_state = none;
    state_json = StateFile.missing;
    last_limit_write = complete;
    ui_state_write = complete;
    state_json_writable = true;
  };
  log = empty;
  distributed = [];
  commands = [];
}

abbrev set_request : Fields
set_request = field "action" (text "set") (field "limit_pct" (integer (pos 50)) end)

abbrev lock_request : Fields
lock_request = field "action" (text "lock") end

web_limit_accepted_example :
    (power_limit_handler to_float (some (object set_request)) clock server).0.control.wmaxlimpct_raw
    ≡ 50
unfolding get has_key
web_limit_accepted_example =
    (web_limit_accepted to_float set_request 50 clock server refl refl refl (omega arith)).1

lock_sends_nothing_example :
    (venus_lock_handler (some (object lock_request)) clock server).0.distributed ≡ []
unfolding get
lock_sends_nothing_example = (lock_sends_nothing lock_request clock server refl).6

power_limit_handler-Settled_example :
    Settled server (power_limit_handler to_float none clock server)
power_limit_handler-Settled_example = power_limit_handler-Settled to_float none clock server

abbrev devices : Devices
devices = record {
  to_int = λ v. some (pos 40);
  detail = λ lo hi. "";
  plugin = λ id. none;
  answer = done;
}

abbrev clamp_request : Fields
clamp_request = field "device_id" (text "virtual") (field "max_pct" (integer (pos 40)) end)

virtual_clamp_example :
    Ceiling 0 40 (power_clamp_handler devices (some (object clamp_request)) clock server).0.control
unfolding get has_key read_pct
virtual_clamp_example = (virtual_clamp devices clamp_request 0 40 clock server refl refl refl).1
