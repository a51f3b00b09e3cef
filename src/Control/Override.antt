-- ===== src/Control/Override.antt =====
-- `OverrideLog` of control.py: a ring buffer of the control events. A percentage is a natural number.
use pv_inverter_master.Base.{ℕ, String, Option, List, []}
use pv_inverter_master.Deque.{push}

pub data Action : Type 0 where
  set enable disable unlock lock revert release clamp : Action

pub data Origin : Type 0 where
  venus_os webapp system : Origin

pub record Event : Type 0 where
  pub ts : ℕ
  pub source : Origin
  pub action : Action
  pub value : Option ℕ
  pub detail : String

pub record OverrideLog : Type 0 where
  pub maxlen : ℕ
  pub events : List Event

-- `__init__` with its default bound.
abbrev pub empty : OverrideLog
empty = record { maxlen = 50; events = [] }

unfoldable pub append : Event → OverrideLog → OverrideLog
append e l = record l { events = push l.maxlen e l.events }
