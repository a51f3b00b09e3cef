-- ===== src/Updater/Trigger/Tests.antt =====
-- The theorems of the trigger file at a concrete trigger.
use pv_inverter_master.Base.{◌≡◌, refl, String, Bool, true, List, [], ◌∷◌, arith, inr}
use pv_inverter_master.Json.{text, object, Fields, end, field, get, has_key}
use pv_inverter_master.Updater.Nonces.{NonceDedupStore, has_seen, mark_seen}
use pv_inverter_master.Updater.Nonces.Retention.{mark_seen_keeps}
use pv_inverter_master.Updater.Texts.{matches_sha}
use pv_inverter_master.Updater.Trigger.{
  Body, corrupt, json, ValidatedTrigger, accepted, replayed, read_and_validate_trigger, update,
}
use pv_inverter_master.Updater.Trigger.Accepted.{accepted-Genuine, refused_unchanged, Genuine}
use pv_inverter_master.Updater.Trigger.{Op, read}
use pv_inverter_master.Updater.Exec.{written, mode_unset}
use pv_inverter_master.Updater.TriggerWriter.{TriggerPayload, validate, write_trigger}
use pv_inverter_master.Updater.Trigger.Replayed.{
  Reading, may_store, read_once, read_all, stored_by, accepted_replayed,
}
use pv_inverter_master.Updater.Trigger.Handover.{trigger_of, written_trigger_accepted}
use pv_inverter_master.Updater.Trigger.Shapes.{matches_sha-newline}
use pv_inverter_master.Updater.Trigger.{
  consume, consume_read, with_op, read_op, read_target, read_text, read_time, read_fields,
  validate_value, exact_keys, all_allowed, op_text,
}

abbrev store : NonceDedupStore
store = record {
  max_entries = 50;
  entries = record { nonce = "old"; seen_at = 500 } ∷ [];
  saving = written;
}

mark_seen_keeps_example : has_seen "new" (mark_seen "new" 1000 store).0 ≡ true
unfolding has_seen
mark_seen_keeps_example =
    (mark_seen_keeps "new" 1000 store refl (omega arith) (omega arith, tt) refl).1

abbrev sha : String
sha = "0123456789abcdef0123456789abcdef01234567"

abbrev trigger : ValidatedTrigger
trigger = record {
  op = update;
  target_sha = sha;
  requested_at = "2025-01-01T00:00:00Z";
  requested_by = "webapp";
  nonce = "new";
}

abbrev trigger_file : Body
trigger_file = json (
    object (
      field "op" (text "update") (
        field "target_sha" (text sha) (
          field "requested_at" (text "2025-01-01T00:00:00Z")
            (field "requested_by" (text "webapp") (field "nonce" (text "new") end))))))

abbrev any_time : String → Bool
any_time s = true

trigger_accepted : (read_and_validate_trigger any_time trigger_file 1000 store).0 ≡ accepted trigger
unfolding read_and_validate_trigger exact_keys all_allowed has_key get read_op op_text read_target
    with_op validate_value consume_read consume has_seen mark_seen read_fields read_text read_time
    matches_sha
trigger_accepted = refl

accepted-Genuine_example :
    (fs : Fields) × (trigger_file ≡ json (object fs))
    × Genuine any_time fs trigger store
    × (mark_seen trigger.nonce 1000 store
        ≡ ((read_and_validate_trigger any_time trigger_file 1000 store).1, true))
accepted-Genuine_example =
    accepted-Genuine any_time trigger_file trigger 1000 store trigger_accepted

abbrev after : NonceDedupStore
after = (read_and_validate_trigger any_time trigger_file 1000 store).1

-- Another trigger file, read in between.
abbrev next_file : Body
next_file = json (
    object (
      field "op" (text "rollback") (
        field "target_sha" (text "previous") (
          field "requested_at" (text "2025-01-02T00:00:00Z")
            (field "requested_by" (text "webapp") (field "nonce" (text "next") end))))))

abbrev others : List Reading
others =
    record { body = next_file; now = 3000; saving = written }
    ∷ record { body = corrupt; now = 4000; saving = written }
    ∷ []

one_stored : stored_by any_time others after ≡ 1
unfolding read_and_validate_trigger exact_keys all_allowed has_key get read_op op_text read_target
    with_op validate_value consume_read consume has_seen mark_seen read_fields read_text read_time
    matches_sha stored_by read_once may_store
one_stored = refl

accepted_replayed_example :
    let s' = read_all any_time others after in
    read_and_validate_trigger any_time trigger_file 5000 s' ≡ (replayed, s')
accepted_replayed_example =
    accepted_replayed any_time trigger_file trigger 1000 5000 store others trigger_accepted
      (omega arith, tt) (omega (arith, one_stored))

refused_unchanged_example :
    (read_and_validate_trigger any_time (json (object end)) 1000 store).1 ≡ store
unfolding read_and_validate_trigger exact_keys has_key all_allowed
refused_unchanged_example = refused_unchanged any_time (json (object end)) 1000 store (inr refl)

abbrev sha_and_newline : String
sha_and_newline = "0123456789abcdef0123456789abcdef01234567\n"

matches_sha-newline_example : matches_sha sha_and_newline ≡ true
unfolding matches_sha
matches_sha-newline_example = matches_sha-newline sha sha_and_newline refl refl refl

abbrev payload : TriggerPayload
payload = record {
  op = "update";
  target_sha = sha;
  requested_at = "2025-01-01T00:00:00Z";
  requested_by = "webapp";
  nonce = "new";
}

written_trigger_accepted_example :
    (o : Op) × (read_op (text "update") ≡ read o)
    × (read_and_validate_trigger any_time
          (write_trigger mode_unset payload trigger_file).1
          1000
          store
        ≡ (accepted (trigger_of o payload), (mark_seen "new" 1000 store).0))
unfolding validate matches_sha has_seen mark_seen
written_trigger_accepted_example =
    written_trigger_accepted any_time mode_unset payload trigger_file 1000 store refl (λ e. cc) refl
      refl refl
