-- ===== src/Recovery.antt =====
-- src/pv_inverter_proxy/recovery.py, which runs at every boot before the main service, and
-- `write_pending_marker` of src/pv_inverter_proxy/updater_root/runner.py, whose marker it reads.
-- A time of the clock is in milliseconds; how it compares with a JSON number is an input, as are
-- the reads of the disk. An integer that is too large for a float is not modelled.
pub mod Rollback
mod Tests
use pv_inverter_master.Base.{
  ℕ, String, Bool, true, false, not, ◌&&◌, Option, none, some, if◌then◌else◌, pos,
}
use pv_inverter_master.Json.{
  Value, null, boolean, integer, fraction, text, array, object, Fields, end, field, get, is_one,
}
use pv_inverter_master.Updater.Texts.{strip_prefix}
use pv_inverter_master.Updater.Status.{
  FileText, missing, unreadable, undecodable, empty, corrupt, json,
}

-- `reason` is only logged.
pub record PendingMarker : Type 0 where
  pub previous_release : String
  pub target_release : String
  pub created_at : Value

-- A load gives a marker, nothing, or an exception.
pub data Loaded : Type 0 where
  nothing crashed : Loaded
  marker : PendingMarker → Loaded

abbrev is_some : Option String → Bool
is_some none = false
is_some (some s) = true

-- `s.startswith("/")`
abbrev pub is_absolute : String → Bool
is_absolute s = is_some (strip_prefix "/" s)

-- `isinstance(v, (int, float))`, which holds of a bool too.
abbrev pub is_number : Value → Bool
is_number (boolean b) = true
is_number (integer z) = true
is_number fraction = true
is_number _ = false

read_marker : Value → Value → Value → Loaded
read_marker (text prev) (text tgt) created =
    if is_absolute prev && is_absolute tgt && is_number created
    then marker (record { previous_release = prev; target_release = tgt; created_at = created })
    else nothing
read_marker _ _ created = nothing

load_value : Value → Loaded
unfolding read_marker
load_value (object fs) =
    if is_one (get "schema_version" fs)
    then read_marker (get "previous_release" fs) (get "target_release" fs) (get "created_at" fs)
    else nothing
load_value _ = nothing

-- A text that is no UTF-8 raises a UnicodeDecodeError, which is not caught.
unfoldable pub load_pending_marker : FileText → Loaded
unfolding load_value
load_pending_marker undecodable = crashed
load_pending_marker (json v) = load_value v
load_pending_marker _ = nothing

-- `write_pending_marker`; `created` is the time as a JSON number.
unfoldable pub write_pending_marker : String → String → Value → String → FileText
write_pending_marker previous target created reason = json (
    object (
      field "created_at" created (
        field "previous_release" (text previous) (
          field "reason" (text reason) (
            field "schema_version" (integer (pos 1)) (field "target_release" (text target) end))))))

-- The symlink `current`, and the marker's file.
pub record Disk : Type 0 where
  pub link : String
  pub pending : FileText

-- The last-boot-success marker: its modification time, or none if `stat` fails.
pub data LastSuccess : Type 0 where
  never : LastSuccess
  at : Option ℕ → LastSuccess

-- What a boot finds: the flag of the updater, the success marker, which paths are directories, and
-- whether the flip and the unlinking of the marker work. `is_after` compares a time with a number.
pub record Boot : Type 0 where
  pub updater_active : Bool
  pub last_success : LastSuccess
  pub is_after : ℕ → Value → Bool
  pub is_dir : String → Bool
  pub flip_works : Bool
  pub unlink_works : Bool

pub data Outcome : Type 0 where
  no_pending updater_active stale_pending_cleaned rolled_back target_missing flip_failed exception :
      Outcome

unfoldable pub clear_pending_marker : Boot → Disk → Disk
clear_pending_marker b d = if b.unlink_works then record d { pending = missing } else d

-- `_atomic_symlink_flip`, which leaves the link as it is when it raises.
unfoldable pub atomic_symlink_flip : Boot → String → Disk → Option Disk
atomic_symlink_flip b to d = if b.flip_works then some (record d { link = to }) else none

-- A modification time that `stat` does not give counts as 0.
abbrev newer : LastSuccess → (ℕ → Value → Bool) → Value → Bool
newer never is_after created = false
newer (at none) is_after created = is_after 0 created
newer (at (some t)) is_after created = is_after t created

-- Whether a boot succeeded after the marker was made.
unfoldable pub is_stale : Boot → PendingMarker → Bool
is_stale b m = newer b.last_success b.is_after m.created_at

flipped : Boot → Option Disk → Disk → Outcome × Disk
flipped b none d = (flip_failed, d)
flipped b (some d') d = (rolled_back, clear_pending_marker b d')

unfoldable pub roll_back : Boot → PendingMarker → Disk → Outcome × Disk
unfolding flipped
roll_back b m d =
    if not (b.is_dir m.previous_release)
    then (target_missing, d)
    else flipped b (atomic_symlink_flip b m.previous_release d) d

recover : Boot → Loaded → Disk → Outcome × Disk
recover b nothing d = (no_pending, d)
recover b crashed d = (exception, d)
recover b (marker m) d =
    if b.updater_active
    then (updater_active, d)
    else if is_stale b m
    then (stale_pending_cleaned, clear_pending_marker b d)
    else roll_back b m d

-- `recover_if_needed`, with `exception` for what `main` makes of an exception.
unfoldable pub recover_if_needed : Boot → Disk → Outcome × Disk
unfolding recover
recover_if_needed b d = recover b (load_pending_marker d.pending) d

-- `main`: the exit code is always 0.
unfoldable pub main : Boot → Disk → ℕ × Disk
main b d = (0, (recover_if_needed b d).1)
