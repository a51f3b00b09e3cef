-- ===== src/Updater/Trigger/Handover.antt =====
-- From the web application's trigger to the privileged reader.
use pv_inverter_master.Base.{
  ℕ, ◌≡◌, ◌≢◌, refl, ap, ◌∙◌, String, Bool, true, false, ◌||◌, none, some, Bool-cases, inl, inr,
  arith, str_eq, if◌then◌else◌,
}
use pv_inverter_master.Json.{text, object, get, has_key}
use pv_inverter_master.Updater.Texts.{matches_sha, is_empty}
use pv_inverter_master.Updater.Nonces.{NonceDedupStore, has_seen, mark_seen}
use pv_inverter_master.Updater.Exec.{Written, written, unwritten, mode_unset}
use pv_inverter_master.Updater.Trigger.{
  Body, json, Op, update, rollback, ValidatedTrigger, accepted, read, exact_keys, all_allowed,
  op_text, read_op, read_target, read_text, read_time, read_fields, consume, consume_read, with_op,
  validate_value, read_and_validate_trigger,
}
use pv_inverter_master.Updater.TriggerWriter.{
  TriggerPayload, is_target, validate, fields_of, write_payload, write_trigger,
}

op_read :
    (op sha : String)
    → is_target op sha ≡ true
    → (o : Op) × (op_text op ≡ read o) × (read_target o (text sha) ≡ some sha)
unfolding op_text read_target
op_read op sha h = elim (Bool-cases (str_eq op "update")) [
  | inl u ↦ (update, rw u refl, updated u h)
  | inr n ↦ elim (Bool-cases (str_eq op "rollback")) [
    | inl r ↦ (rollback, rw (n, r) refl, rolled n r h)
    | inr x ↦ absurd (neither n x h)
  ]
]
  where
    updated :
        str_eq op "update" ≡ true
        → is_target op sha ≡ true
        → (if matches_sha sha then some sha else none) ≡ some sha
    updated u = rw u (λ fits. rw fits refl)

    rolled :
        str_eq op "update" ≡ false
        → str_eq op "rollback" ≡ true
        → is_target op sha ≡ true
        → (if str_eq sha "previous" || matches_sha sha then some sha else none) ≡ some sha
    rolled n r = rw (n, r) (λ fits. rw fits refl)

    neither :
        str_eq op "update" ≡ false → str_eq op "rollback" ≡ false → is_target op sha ≡ true → ⊥
    neither n x = rw (n, x) (λ fits. cc)

-- The trigger that a payload stands for.
abbrev pub trigger_of : Op → TriggerPayload → ValidatedTrigger
trigger_of o p = record {
  op = o;
  target_sha = p.target_sha;
  requested_at = p.requested_at;
  requested_by = p.requested_by;
  nonce = p.nonce;
}

read_payload :
    (valid_time : String → Bool) (p : TriggerPayload) (o : Op)
    → read_target o (text p.target_sha) ≡ some p.target_sha
    → valid_time p.requested_at ≡ true
    → is_empty p.requested_by ≡ false
    → is_empty p.nonce ≡ false
    → read_fields valid_time o (fields_of p) ≡ some (trigger_of o p)
unfolding read_fields read_text read_time get
read_payload valid_time p o target time by nonce = rw (read_fields, target, time, by, nonce) refl

fresh_accepted :
    (t : ValidatedTrigger) (now : ℕ) (s : NonceDedupStore)
    → has_seen t.nonce s ≡ false
    → (mark_seen t.nonce now s).1 ≡ true
    → consume t now s ≡ (accepted t, (mark_seen t.nonce now s).0)
unfolding consume
fresh_accepted t now s new saved = rw (new, saved) refl

payload_accepted :
    (valid_time : String → Bool) (p : TriggerPayload) (o : Op) (now : ℕ) (s : NonceDedupStore)
    → op_text p.op ≡ read o
    → read_fields valid_time o (fields_of p) ≡ some (trigger_of o p)
    → has_seen p.nonce s ≡ false
    → (mark_seen p.nonce now s).1 ≡ true
    → read_and_validate_trigger valid_time (json (object (fields_of p))) now s
      ≡ (accepted (trigger_of o p), (mark_seen p.nonce now s).0)
unfolding read_and_validate_trigger validate_value exact_keys all_allowed has_key get read_op
    with_op consume_read
payload_accepted valid_time p o now s op fs new saved =
    ap (λ r. with_op valid_time r (fields_of p) now s) op
    ∙ ap (λ r. consume_read r now s) fs
    ∙ fresh_accepted (trigger_of o p) now s new saved

handed_over :
    (w : Written) (p : TriggerPayload) (old : Body)
    → validate p ≡ true
    → w ≢ unwritten
    → (write_trigger w p old).1 ≡ json (object (fields_of p))
unfolding write_trigger write_payload
handed_over written p old h n = rw h refl
handed_over unwritten p old h n = absurd (n refl)
handed_over mode_unset p old h n = rw h refl

valid_parts :
    (p : TriggerPayload)
    → validate p ≡ true
    → (is_target p.op p.target_sha ≡ true)
      × (is_empty p.nonce ≡ false)
      × (is_empty p.requested_by ≡ false)
unfolding validate
valid_parts p h = (ground arith, ground arith, ground arith)

-- A valid payload whose write replaces the file, even if the write then raises as the mode cannot be
-- set, is accepted by the reader as it was written, if its time has the form that the reader asks
-- for, its nonce is new and the store can be saved; the nonce is then marked.
pub written_trigger_accepted :
    (valid_time : String → Bool) (w : Written) (p : TriggerPayload) (old : Body) (now : ℕ)
    (s : NonceDedupStore)
    → validate p ≡ true
    → w ≢ unwritten
    → valid_time p.requested_at ≡ true
    → has_seen p.nonce s ≡ false
    → (mark_seen p.nonce now s).1 ≡ true
    → (o : Op) × (read_op (text p.op) ≡ read o)
      × (read_and_validate_trigger valid_time (write_trigger w p old).1 now s
          ≡ (accepted (trigger_of o p), (mark_seen p.nonce now s).0))
unfolding read_op
written_trigger_accepted valid_time w p old now s valid replaced time new saved =
    let parts = valid_parts p valid in
    let (o, op, target) = op_read p.op p.target_sha parts.0 in
    (
      o,
      op,
      ap (λ f. read_and_validate_trigger valid_time f now s) (handed_over w p old valid replaced)
          ∙ payload_accepted valid_time p o now s op
              (read_payload valid_time p o target time parts.2 parts.1) new saved,
    )
