-- ===== src/Updater/Progress.antt =====
-- updater/progress.py: `ProgressBroadcaster`, which sends each new history entry of the status file to the
-- clients. A payload is kept as the dict that is serialised, with the clients that received it; which
-- clients can be reached during a poll is an input. `load_status` and `current_phase` never raise.
pub mod Once
pub mod Attempts
mod Tests
use pv_inverter_master.Base.{
  ℕ, suc, String, Bool, true, false, Option, none, some, List, [], ◌∷◌, ◌++◌, if◌then◌else◌, str_eq,
  ℤ, pos, negsuc, ltb_ℤ,
}
use pv_inverter_master.Json.{
  Value, null, boolean, integer, fraction, text, array, object, Fields, end, field, get, has_key,
}
use pv_inverter_master.Updater.Status.{FileText, UpdateStatus, load_status, current_phase, is_idle}

abbrev pub active_poll_interval : ℕ
active_poll_interval = 500

abbrev pub idle_poll_interval : ℕ
idle_poll_interval = 5000

pub record ProgressBroadcaster : Type 0 where
  pub last_sequence : ℤ
  pub clients : List String

abbrev pub new : List String → ProgressBroadcaster
new clients = record { last_sequence = negsuc 0; clients = clients }

-- `_next_interval`
unfoldable pub next_interval : String → ℕ
next_interval phase = if is_idle phase then idle_poll_interval else active_poll_interval

sequence_of : Value → ℕ → Option ℤ
sequence_of null idx = some (pos idx)
sequence_of (integer z) idx = some z
sequence_of _ idx = none

-- `_entry_sequence`
unfoldable pub entry_sequence : Fields → ℕ → Option ℤ
unfolding sequence_of
entry_sequence fs idx = sequence_of (get "sequence" fs) idx

-- An entry that is malformed, or sent already, is left out.
abbrev pub add_entry : ℤ → Option ℤ → Fields → List (ℤ × Fields) → List (ℤ × Fields)
add_entry last none e rest = rest
add_entry last (some z) e rest = if ltb_ℤ last z then (z, e) ∷ rest else rest

unfoldable pub new_entries : ℤ → ℕ → List Fields → List (ℤ × Fields)
new_entries last idx [] = []
new_entries last idx (e ∷ es) =
    add_entry last (entry_sequence e idx) e (new_entries last (suc idx) es)

-- `new_entries.sort`, which is stable.
place : ℤ × Fields → List (ℤ × Fields) → List (ℤ × Fields)
place x [] = x ∷ []
place x (y ∷ ys) = if ltb_ℤ y.0 x.0 then y ∷ place x ys else x ∷ y ∷ ys

unfoldable pub in_order : List (ℤ × Fields) → List (ℤ × Fields)
unfolding place
in_order [] = []
in_order (x ∷ xs) = place x (in_order xs)

-- `data[key] = value`
unfoldable pub put : String → Value → Fields → Fields
put key value end = field key value end
put key value (field k v fs) =
    if str_eq k key then field k value fs else field k v (put key value fs)

number : Value → ℤ → Fields → Fields
number null z fs = put "sequence" (integer z) fs
number _ z fs = fs

-- `_envelope`
unfoldable pub envelope : ℤ → Fields → Fields
unfolding number
envelope z fs =
    let numbered = number (get "sequence" fs) z fs in
    if has_key "error" numbered then numbered else put "error" null numbered

pub record Sent : Type 0 where
  pub payload : Fields
  pub received_by : List String

-- The clients that are reached; the others are evicted.
unfoldable pub reached : (String → Bool) → List String → List String
reached alive [] = []
reached alive (c ∷ cs) = let rest = reached alive cs in if alive c then c ∷ rest else rest

unfoldable pub emit :
    (String → Bool) → List (ℤ × Fields) → ProgressBroadcaster → ProgressBroadcaster × List Sent
emit alive [] b = (b, [])
emit alive ((z, fs) ∷ es) b =
    let cs = reached alive b.clients in
    let (b', sent) = emit alive es (record { last_sequence = z; clients = cs }) in
    (b', record { payload = envelope z fs; received_by = cs } ∷ sent)

-- `_emit_new_entries`
unfoldable pub emit_new_entries :
    (String → Bool) → List Fields → ProgressBroadcaster → ProgressBroadcaster × List Sent
emit_new_entries alive history b = emit alive (in_order (new_entries b.last_sequence 0 history)) b

-- `_poll_once`, with the phase that it gives.
unfoldable pub poll_once :
    (String → Bool) → FileText → ProgressBroadcaster → ProgressBroadcaster × List Sent × String
poll_once alive f b =
    let (b', sent) = emit_new_entries alive (load_status f).history b in
    (b', sent, current_phase (load_status f))
