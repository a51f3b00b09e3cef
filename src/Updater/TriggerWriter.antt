-- ===== src/Updater/TriggerWriter.antt =====
-- updater/trigger.py: the web application's side of the trigger file. The times, nonces and texts of a
-- payload come from the caller.
use pv_inverter_master.Base.{
  ℕ, String, Bool, false, not, ◌&&◌, ◌||◌, List, [], ◌∷◌, ◌==◌, if◌then◌else◌, str_eq,
}
use pv_inverter_master.Json.{text, object, Fields, end, field}
use pv_inverter_master.Sunspec.{codes}
use pv_inverter_master.Updater.Texts.{matches_sha, is_empty}
use pv_inverter_master.Updater.Trigger.{Body, json}
use pv_inverter_master.Updater.Exec.{Written, written, unwritten, mode_unset}

pub record TriggerPayload : Type 0 where
  pub op : String
  pub target_sha : String
  pub requested_at : String
  pub requested_by : String
  pub nonce : String

abbrev ends_in_z : List ℕ → Bool
ends_in_z [] = false
ends_in_z (c ∷ []) = c == 90
ends_in_z (c ∷ d ∷ cs) = ends_in_z (d ∷ cs)

abbrev pub is_target : String → String → Bool
is_target op sha =
    if str_eq op "update"
    then matches_sha sha
    else if str_eq op "rollback"
    then str_eq sha "previous" || matches_sha sha
    else false

-- `validate`: whether it returns; else it raises a ValueError.
unfoldable pub validate : TriggerPayload → Bool
validate p =
    is_target p.op p.target_sha
    && not (is_empty p.nonce)
    && ends_in_z (codes p.requested_at)
    && not (is_empty p.requested_by)

-- The dict that is serialised, with its keys sorted.
abbrev pub fields_of : TriggerPayload → Fields
fields_of p = field "nonce" (text p.nonce) (
    field "op" (text p.op) (
      field "requested_at" (text p.requested_at)
        (field "requested_by" (text p.requested_by) (field "target_sha" (text p.target_sha) end))))

pub data Result : Type 0 where
  returned value_error os_error : Result

-- After the validation, given how the write of the file ends: `mode_unset` is an OSError of the chmod,
-- when the file is replaced already.
unfoldable pub write_payload : Written → TriggerPayload → Body → Result × Body
write_payload written p old = (returned, json (object (fields_of p)))
write_payload unwritten p old = (os_error, old)
write_payload mode_unset p old = (os_error, json (object (fields_of p)))

unfoldable pub write_trigger : Written → TriggerPayload → Body → Result × Body
unfolding write_payload
write_trigger w p old = if validate p then write_payload w p old else (value_error, old)
