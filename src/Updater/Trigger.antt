-- ===== src/Updater/Trigger.antt =====
-- `read_and_validate_trigger` of updater_root/trigger_reader.py. `_parse_iso_utc` rests on
-- `strptime` and is a parameter, `valid_time`. What reading and parsing the file gives is an input.
pub mod Accepted
pub mod Replayed
pub mod Shapes
pub mod Handover
mod Tests
use pv_inverter_master.Base.{
  ℕ, String, Bool, true, false, not, ◌&&◌, ◌||◌, Option, none, some, List, [], ◌∷◌, str_eq,
  if◌then◌else◌,
}
use pv_inverter_master.Json.{
  Value, null, boolean, integer, fraction, text, array, object, Items, nil, cons, Fields, end,
  field, get, has_key, is_hashable,
}
use pv_inverter_master.Updater.Texts.{matches_sha, is_empty}
use pv_inverter_master.Updater.Nonces.{NonceDedupStore, has_seen, mark_seen}

-- A missing file, an OSError, a UnicodeDecodeError, a JSONDecodeError, or the value that the file
-- holds.
pub data Body : Type 0 where
  missing unreadable undecodable corrupt : Body
  json : Value → Body

pub data Op : Type 0 where
  update rollback : Op

pub record ValidatedTrigger : Type 0 where
  pub op : Op
  pub target_sha : String
  pub requested_at : String
  pub requested_by : String
  pub nonce : String

-- `invalid` is TriggerValidationError, `replayed` its subclass NonceReplayError, `crashed` any other
-- exception: the UnicodeDecodeError of a file that is no UTF-8, the TypeError of an unhashable `op`, or the
-- OSError of a store that cannot be saved.
pub data Outcome : Type 0 where
  accepted : ValidatedTrigger → Outcome
  invalid replayed crashed : Outcome

abbrev is_allowed : String → Bool
is_allowed k =
    str_eq k "op"
    || str_eq k "target_sha"
    || str_eq k "requested_at"
    || str_eq k "requested_by"
    || str_eq k "nonce"

all_allowed : Fields → Bool
all_allowed end = true
all_allowed (field k v fs) = is_allowed k && all_allowed fs

-- `set(body.keys()) == ALLOWED_KEYS`
unfoldable pub exact_keys : Fields → Bool
unfolding all_allowed
exact_keys fs =
    all_allowed fs
    && has_key "op" fs
    && has_key "target_sha" fs
    && has_key "requested_at" fs
    && has_key "requested_by" fs
    && has_key "nonce" fs

-- `op not in VALID_OPS`: `none` is the TypeError at a list or a dict.
pub data OpRead : Type 0 where
  read : Op → OpRead
  unknown unhashable : OpRead

op_text : String → OpRead
op_text s =
    if str_eq s "update"
    then read update
    else if str_eq s "rollback"
    then read rollback
    else unknown

pub read_op : Value → OpRead
unfolding op_text
read_op (text s) = op_text s
read_op (array _) = unhashable
read_op (object _) = unhashable
read_op _ = unknown

-- The target of an operation: a SHA, or for a rollback also "previous".
abbrev target_fits : Op → String → Bool
target_fits update s = matches_sha s
target_fits rollback s = str_eq s "previous" || matches_sha s

pub read_target : Op → Value → Option String
read_target op (text s) = if target_fits op s then some s else none
read_target op _ = none

-- A text that is not empty.
pub read_text : Value → Option String
read_text (text s) = if is_empty s then none else some s
read_text _ = none

module _ (valid_time : String → Bool) where
  pub read_time : Value → Option String
  read_time (text s) = if valid_time s then some s else none
  read_time _ = none

  -- The fields after `op`, in the order of the checks.
  pub read_fields : Op → Fields → Option ValidatedTrigger
  read_fields op fs = elim (read_target op (get "target_sha" fs)) [
    | none ↦ none
    | some sha ↦ elim (read_time (get "requested_at" fs)) [
      | none ↦ none
      | some at ↦ elim (read_text (get "requested_by" fs)) [
        | none ↦ none
        | some by ↦ elim (read_text (get "nonce" fs)) [
          | none ↦ none
          | some n ↦ some (record {
            op = op;
            target_sha = sha;
            requested_at = at;
            requested_by = by;
            nonce = n;
          })
        ]
      ]
    ]
  ]

-- The steps 9 and 10: the nonce must be new, and is marked before the trigger is returned.
pub consume : ValidatedTrigger → ℕ → NonceDedupStore → Outcome × NonceDedupStore
consume t now s =
    if has_seen t.nonce s
    then (replayed, s)
    else (let (s', saved) = mark_seen t.nonce now s in (if saved then accepted t else crashed, s'))

pub consume_read : Option ValidatedTrigger → ℕ → NonceDedupStore → Outcome × NonceDedupStore
unfolding consume
consume_read none now s = (invalid, s)
consume_read (some t) now s = consume t now s

module _ (valid_time : String → Bool) where
  pub with_op : OpRead → Fields → ℕ → NonceDedupStore → Outcome × NonceDedupStore
  unfolding consume_read read_fields read_time
  with_op (read op) fs now s = consume_read (read_fields valid_time op fs) now s
  with_op unknown fs now s = (invalid, s)
  with_op unhashable fs now s = (crashed, s)

  pub validate_value : Value → ℕ → NonceDedupStore → Outcome × NonceDedupStore
  unfolding with_op
  validate_value (object fs) now s =
      if exact_keys fs then with_op (read_op (get "op" fs)) fs now s else (invalid, s)
  validate_value _ now s = (invalid, s)

  unfoldable pub read_and_validate_trigger : Body → ℕ → NonceDedupStore → Outcome × NonceDedupStore
  unfolding validate_value read_op read_target read_text
  read_and_validate_trigger (json v) now s = validate_value v now s
  read_and_validate_trigger undecodable now s = (crashed, s)
  read_and_validate_trigger _ now s = (invalid, s)
