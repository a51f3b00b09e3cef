-- ===== src/Updater/Health.antt =====
-- updater_root/healthcheck.py: `HealthChecker.wait_for_healthy`, which decides after a restart whether
-- the new release stays. A round of the loop is an input: the clock and the flag file at its top,
-- whether the unit is active, and what the request gives. Times are in milliseconds. `systemctl`
-- is taken to run, and to answer with its exit code.
pub mod Termination
pub mod Stable
pub mod Probes
pub mod Liveness
mod Tests
use pv_inverter_master.Base.{
  ℕ, zero, suc, ◌+◌, ◌-◌, String, Bool, true, false, not, ◌&&◌, ◌||◌, Option, none, some, leb,
  if◌then◌else◌, str_eq,
}
use pv_inverter_master.Json.{
  Value, null, boolean, integer, fraction, text, array, object, Fields, end, field, get,
}
use pv_inverter_master.Updater.Texts.{is_empty}

pub record HealthCheckConfig : Type 0 where
  pub hard_timeout : ℕ
  pub consecutive_ok_required : ℕ
  pub poll_interval : ℕ
  pub degraded_timeout : ℕ

-- The defaults.
abbrev pub default_config : HealthCheckConfig
default_config = record {
  hard_timeout = 60000;
  consecutive_ok_required = 3;
  poll_interval = 5000;
  degraded_timeout = 45000;
}

pub data Reason : Type 0 where
  stable_ok systemctl_failed version_mismatch degraded_5xx_timeout no_healthy_flag timeout : Reason

-- `last_response`: nothing yet, a body, or the text of an exception, which is not modelled.
pub data LastResponse : Type 0 where
  no_response request_error : LastResponse
  response : Value → LastResponse

pub record HealthCheckOutcome : Type 0 where
  pub success : Bool
  pub reason : Reason
  pub last_response : LastResponse
  pub probes : ℕ
  pub consecutive_ok : ℕ

-- What a request gives: an exception, a status from 500 on, a body that is no JSON, or a body.
pub data Reply : Type 0 where
  unreachable server_error not_json : Reply
  body : Value → Reply

-- One round. `flag` is the flag file at the top, `flag_after` at the exit after the hard timeout.
pub record Round : Type 0 where
  pub now : ℕ
  pub flag : Bool
  pub flag_after : Bool
  pub is_active : Bool
  pub reply : Reply

-- The variables of the loop.
pub record Progress : Type 0 where
  pub consecutive_ok : ℕ
  pub probes : ℕ
  pub last_response : LastResponse
  pub first_degraded_at : Option ℕ

abbrev pub is_text : String → Value → Bool
is_text s (text t) = str_eq t s
is_text s _ = false

-- `any(v == "ok" for v in devices.values())`, false of no devices.
unfoldable pub any_ok : Fields → Bool
any_ok end = false
any_ok (field k v fs) = is_text "ok" v || any_ok fs

abbrev devices_ok : Value → Bool
devices_ok (object fs) = any_ok fs
devices_ok _ = false

-- `_is_required_ok`
unfoldable pub is_required_ok : Fields → Bool
is_required_ok fs =
    is_text "ok" (get "status" fs)
    && is_text "ok" (get "webapp" fs)
    && is_text "ok" (get "modbus_server" fs)
    && devices_ok (get "devices" fs)

-- Whether the version is another one than expected; nothing is expected without a version or at "".
unfoldable pub is_mismatch : Option String → Fields → Bool
is_mismatch none fs = false
is_mismatch (some v) fs = not (is_empty v) && not (is_text v (get "version" fs))

-- A probe ends the loop, or goes on.
pub data Verdict : Type 0 where
  ended : HealthCheckOutcome → Verdict
  going : Progress → Verdict

abbrev failure : Reason → LastResponse → ℕ → ℕ → HealthCheckOutcome
failure reason last probes count = record {
  success = false;
  reason = reason;
  last_response = last;
  probes = probes;
  consecutive_ok = count;
}

-- A 5xx, or an exception: what it means for the streak that began at `since`.
degraded : HealthCheckConfig → ℕ → LastResponse → Option ℕ → Progress → Verdict
degraded c now last none p =
    going (record p { consecutive_ok = 0; last_response = last; first_degraded_at = some now })
degraded c now last (some since) p =
    if leb c.degraded_timeout (now - since)
    then ended (failure degraded_5xx_timeout p.last_response p.probes 0)
    else going (record p { consecutive_ok = 0; last_response = last })

-- A body that is a dict.
judge : Option String → Fields → Progress → Verdict
judge expected fs p =
    if is_mismatch expected fs
    then ended (failure version_mismatch p.last_response p.probes p.consecutive_ok)
    else if is_required_ok fs
    then going (record p { consecutive_ok = suc p.consecutive_ok })
    else going (record p { consecutive_ok = 0 })

-- A body: the streak ends, and `.get` of a body that is no dict raises, as a new streak.
read_body : HealthCheckConfig → Option String → ℕ → Value → Progress → Verdict
unfolding judge degraded
read_body c expected now (object fs) p = judge expected fs p
read_body c expected now _ p = degraded c now request_error none p

-- The request of a round.
request : HealthCheckConfig → Option String → ℕ → Reply → Progress → Verdict
unfolding degraded read_body
request c expected now unreachable p = degraded c now request_error p.first_degraded_at p
request c expected now server_error p = degraded c now p.last_response p.first_degraded_at p
request c expected now not_json p = going (record p { consecutive_ok = 0 })
request c expected now (body v) p =
    read_body c expected now v (record p { last_response = response v; first_degraded_at = none })

unfoldable pub probe : HealthCheckConfig → Option String → Round → Progress → Verdict
unfolding request
probe c expected r p =
    let p' = record p { probes = suc p.probes } in
    if r.is_active
    then request c expected r.now r.reply p'
    else ended (failure systemctl_failed p.last_response p'.probes 0)

abbrev passed : Progress → HealthCheckOutcome
passed p = record {
  success = true;
  reason = stable_ok;
  last_response = p.last_response;
  probes = p.probes;
  consecutive_ok = p.consecutive_ok;
}

-- The exit after the hard timeout.
unfoldable pub hard_exit : HealthCheckConfig → Bool → Progress → HealthCheckOutcome
hard_exit c flag p =
    if not flag
    then failure no_healthy_flag p.last_response p.probes p.consecutive_ok
    else if leb c.consecutive_ok_required p.consecutive_ok
    then passed p
    else failure timeout p.last_response p.probes p.consecutive_ok

-- The top of the loop.
unfoldable pub top : HealthCheckConfig → ℕ → Round → Progress → Option HealthCheckOutcome
top c t0 r p =
    if leb c.consecutive_ok_required p.consecutive_ok && r.flag
    then some (passed p)
    else if leb c.hard_timeout (r.now - t0)
    then some (hard_exit c r.flag_after p)
    else none

abbrev pub start : Progress
start = record {
  consecutive_ok = 0;
  probes = 0;
  last_response = no_response;
  first_degraded_at = none;
}

-- The loop from round `i` on.
unfoldable pub loop :
    HealthCheckConfig
    → Option String
    → ℕ
    → (ℕ → Round)
    → ℕ
    → ℕ
    → Progress
    → Option HealthCheckOutcome
loop c expected t0 rounds zero i p = none
loop c expected t0 rounds (suc fuel) i p = elim (top c t0 (rounds i) p) [
  | some o ↦ some o
  | none ↦ elim (probe c expected (rounds i) p) [
    | ended o ↦ some o
    | going p' ↦ loop c expected t0 rounds fuel (suc i) p'
  ]
]

-- `wait_for_healthy`, as far as the fuel goes; none when it runs out.
unfoldable pub wait_for_healthy :
    HealthCheckConfig → Option String → ℕ → (ℕ → Round) → ℕ → Option HealthCheckOutcome
wait_for_healthy c expected t0 rounds fuel = loop c expected t0 rounds fuel 0 start
