-- ===== src/Control/Refresh.antt =====
-- `edpc_refresh_loop` of control.py: one round of its loop, after the sleep. The plugin's answer is
-- an input; an exception that it raises leaves the loop, with the writes made so far. A broadcast
-- function is given and returns.
use pv_inverter_master.Base.{
  ℕ, ◌+◌, ◌≤◌, ◌<◌, ◌≡◌, ◌≢◌, String, Bool, true, false, not, ◌||◌, none, some, List, [], ◌∷◌, ◌++◌,
  if◌then◌else◌, arith,
}
use pv_inverter_master.Control.{
  ControlState, Source, unset, venus_os, webapp, Clock, has_passed, check_lock_expiry, is_enabled,
  update_wmaxlim_ena, wmaxlimpct_float,
}
use pv_inverter_master.Control.Override.{OverrideLog, Event, Origin, Action, append}
use pv_inverter_master.Control.Override

pub data Answer : Type 0 where
  done failed raised : Answer

-- A call `write_power_limit(enable, limit_pct)`.
pub record Command : Type 0 where
  pub enable : Bool
  pub limit_pct : ℕ

pub record Loop : Type 0 where
  pub control : ControlState
  pub log : OverrideLog
  pub commands : List Command
  pub broadcasts : ℕ
  pub running : Bool

abbrev is_unset : Source → Bool
is_unset unset = true
is_unset _ = false

abbrev is_webapp : Source → Bool
is_webapp webapp = true
is_webapp _ = false

abbrev system_event : Clock → Action → String → Event
system_event now action detail = record {
  ts = now.wall;
  source = Override.system;
  action = action;
  value = none;
  detail = detail;
}

-- The first part: an expired lock is released, logged and broadcast.
expire_lock : Clock → Loop → Loop
expire_lock now l =
    let (c, expired) = check_lock_expiry now l.control in
    if expired
    then record l {
      control = c;
      log = append (system_event now Override.unlock "auto-unlock after timeout") l.log;
      broadcasts = l.broadcasts + 1;
    }
    else l

abbrev send : Bool → ℕ → Loop → Loop
send enable pct l = record l {
  commands = l.commands ++ record { enable = enable; limit_pct = pct } ∷ [];
}

-- The revert: the plugin is released first, and what follows happens only if that call returns.
revert : Answer → Clock → Loop → Loop
revert raised now l = record (send false 0 l) { running = false }
revert _ now l =
    let l' = send false 0 l in
    record l' {
      control = record (update_wmaxlim_ena 0 l'.control) {
        last_source = unset;
        webapp_revert_at = none;
      };
      log = append (system_event now Override.revert "auto-revert after timeout") l'.log;
      broadcasts = l'.broadcasts + 1;
    }

-- The refresh of a limit of the web application; a failed write is only logged.
refresh : Answer → Loop → Loop
refresh raised l = record (send true (wmaxlimpct_float l.control) l) { running = false }
refresh _ l = send true (wmaxlimpct_float l.control) l

unfoldable pub round : Answer → Clock → Loop → Loop
unfolding expire_lock revert refresh is_enabled
round answer now l =
    let l' = expire_lock now l in
    let c = l'.control in
    if not (is_enabled c) || is_unset c.last_source
    then l'
    else if has_passed c.webapp_revert_at now.mono
    then revert answer now l'
    else if not (is_webapp c.last_source)
    then l'
    else refresh answer l'

-- A limit that Venus OS set, with its revert deadline cancelled, is never touched: the plugin gets
-- no command, and the limit, its enable flag and its source stay.
pub round_leaves_venus_os :
    (answer : Answer) (now : Clock) (l : Loop)
    → l.control.last_source ≡ venus_os
    → l.control.webapp_revert_at ≡ none
    → let l' = round answer now l in
      (l'.commands ≡ l.commands)
      × (l'.control.wmaxlim_ena ≡ l.control.wmaxlim_ena)
      × (l'.control.wmaxlimpct_raw ≡ l.control.wmaxlimpct_raw)
      × (l'.control.last_source ≡ venus_os)
unfolding round check_lock_expiry
round_leaves_venus_os answer now l s r = ground arith

-- An enabled limit of the web application with a deadline: before the deadline a round sends exactly
-- one command, the limit itself, and keeps it; from the deadline on, when the plugin does not
-- raise, a round sends exactly one release, and leaves the limit disabled and owned by nobody.
pub round_webapp :
    (answer : Answer) (now : Clock) (l : Loop) (deadline : ℕ)
    → l.control.last_source ≡ webapp
    → l.control.wmaxlim_ena ≡ 1
    → l.control.webapp_revert_at ≡ some deadline
    → let l' = round answer now l in
      (now.mono < deadline
        → (l'.commands
            ≡ l.commands ++ record { enable = true; limit_pct = wmaxlimpct_float l.control } ∷ [])
          × (l'.control.wmaxlim_ena ≡ 1)
          × (l'.control.last_source ≡ webapp))
      × (deadline ≤ now.mono
          → answer ≢ raised
          → (l'.commands ≡ l.commands ++ record { enable = false; limit_pct = 0 } ∷ [])
            × (l'.control.wmaxlim_ena ≡ 0)
            × (l'.control.last_source ≡ unset)
            × (l'.control.webapp_revert_at ≡ none)
            × (l'.running ≡ l.running))
unfolding round check_lock_expiry update_wmaxlim_ena wmaxlimpct_float
round_webapp answer now l deadline s e r = ground arith
