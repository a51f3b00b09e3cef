-- ===== src/Updater/Trigger/Replayed.antt =====
-- The replay guard over a sequence of reads of the trigger file.
use mathlib.Core.Path.{subst}
use pv_inverter_master.Base.{
  sym, ℕ, suc, ◌+◌, ◌≤◌, ◌<◌, ◌≡◌, refl, ap, ◌∙◌, String, Bool, true, false, Option, none, some,
  List, [], ◌∷◌, arith, if◌then◌else◌, Bool-cases, inl, inr,
}
use pv_inverter_master.Json.{null, boolean, integer, fraction, text, array, object, Fields, get}
use pv_inverter_master.Updater.Exec.{Written}
use pv_inverter_master.Updater.Nonces.{NonceDedupStore, has_seen, mark_seen}
use pv_inverter_master.Updater.Nonces.Retention.{AllBefore}
use pv_inverter_master.Updater.Nonces.Held.{
  Held, Held-later, Held-has_seen, mark_seen-Held, mark_seen-max, mark_seen_first,
}
use pv_inverter_master.Updater.Trigger.{
  Body, missing, unreadable, undecodable, corrupt, json, ValidatedTrigger, Outcome, accepted,
  invalid, replayed, crashed, read_fields, consume, consume_read, with_op, read_op, OpRead, read,
  unknown, unhashable, exact_keys, validate_value, read_and_validate_trigger,
}
use pv_inverter_master.Updater.Trigger.Accepted.{accepted-Genuine, revalidated, consume_seen}

-- A read of the trigger file: what is in it, the time, and how a save of the store ends then.
pub record Reading : Type 0 where
  pub body : Body
  pub now : ℕ
  pub saving : Written

-- Whether a read may have stored a nonce: it was accepted, or raised another exception than a refusal.
unfoldable pub may_store : Outcome → Bool
may_store (accepted t) = true
may_store crashed = true
may_store invalid = false
may_store replayed = false

module _ (valid_time : String → Bool) where
  unfoldable pub read_once : Reading → NonceDedupStore → Outcome × NonceDedupStore
  read_once r s = read_and_validate_trigger valid_time r.body r.now (record s { saving = r.saving })

  -- The store after the reads, and how many of them may have stored a nonce.
  pub read_all : List Reading → NonceDedupStore → NonceDedupStore
  unfolding read_once
  read_all [] s = s
  read_all (r ∷ rs) s = read_all rs (read_once r s).1

  unfoldable pub stored_by : List Reading → NonceDedupStore → ℕ
  unfolding read_once may_store
  stored_by [] s = 0
  stored_by (r ∷ rs) s =
      let rest = stored_by rs (read_once r s).1 in
      if may_store (read_once r s).0 then suc rest else rest

  module _ (k : ℕ) (n : String) where
    -- A step moves a nonce by at most one place, and by none if nothing was stored.
    abbrev Moved : NonceDedupStore → Outcome × NonceDedupStore → Type 0
    Moved s x = (x.1.max_entries ≡ s.max_entries) × Held (if may_store x.0 then suc k else k) n x.1

    still : (o : Outcome) (s : NonceDedupStore) → Held k n s → Moved s (o, s)
    unfolding may_store
    still (accepted t) s h = (refl, Held-later k n s h)
    still crashed s h = (refl, Held-later k n s h)
    still invalid s h = (refl, h)
    still replayed s h = (refl, h)

    -- There is a place left, if something was stored.
    abbrev Room : NonceDedupStore → Outcome × NonceDedupStore → Type 0
    Room s x = may_store x.0 ≡ true → suc k ≤ s.max_entries

    consume-Moved :
        (t : ValidatedTrigger) (now : ℕ) (s : NonceDedupStore)
        → Room s (consume t now s)
        → Held k n s
        → Moved s (consume t now s)
    unfolding consume may_store
    consume-Moved t now s room h = elim (Bool-cases (has_seen t.nonce s)) [
      | inl old ↦ rw old (refl, h)
      | inr new ↦ elim (Bool-cases (mark_seen t.nonce now s).1) [
        | inl saved ↦
            rw (new, saved)
              (
                mark_seen-max t.nonce now s,
                mark_seen-Held k n t.nonce now s (rw (new, saved) at room refl) h,
              )
        | inr lost ↦
            rw (new, lost)
              (
                mark_seen-max t.nonce now s,
                mark_seen-Held k n t.nonce now s (rw (new, lost) at room refl) h,
              )
      ]
    ]

    consume_read-Moved :
        (o : Option ValidatedTrigger) (now : ℕ) (s : NonceDedupStore)
        → Room s (consume_read o now s)
        → Held k n s
        → Moved s (consume_read o now s)
    unfolding consume_read
    consume_read-Moved none now s room h = still invalid s h
    consume_read-Moved (some t) now s room h = consume-Moved t now s room h

    with_op-Moved :
        (o : OpRead) (fs : Fields) (now : ℕ) (s : NonceDedupStore)
        → Room s (with_op valid_time o fs now s)
        → Held k n s
        → Moved s (with_op valid_time o fs now s)
    unfolding with_op
    with_op-Moved unknown fs now s room h = still invalid s h
    with_op-Moved unhashable fs now s room h = still crashed s h
    with_op-Moved (read op) fs now s room h =
        consume_read-Moved (read_fields valid_time op fs) now s room h

    read-Moved :
        (b : Body) (now : ℕ) (s : NonceDedupStore)
        → Room s (read_and_validate_trigger valid_time b now s)
        → Held k n s
        → Moved s (read_and_validate_trigger valid_time b now s)
    unfolding read_and_validate_trigger validate_value
    read-Moved (json (object fs)) now s room h = elim (Bool-cases (exact_keys fs)) [
      | inl exact ↦ rw exact (with_op-Moved (read_op (get "op" fs)) fs now s (rw exact at room) h)
      | inr other ↦ rw other (still invalid s h)
    ]
    read-Moved (json null) now s room h = still invalid s h
    read-Moved (json (boolean b)) now s room h = still invalid s h
    read-Moved (json (integer z)) now s room h = still invalid s h
    read-Moved (json fraction) now s room h = still invalid s h
    read-Moved (json (text x)) now s room h = still invalid s h
    read-Moved (json (array xs)) now s room h = still invalid s h
    read-Moved missing now s room h = still invalid s h
    read-Moved unreadable now s room h = still invalid s h
    read-Moved undecodable now s room h = still crashed s h
    read-Moved corrupt now s room h = still invalid s h

  once :
      (r : Reading) (s : NonceDedupStore) (k : ℕ) (n : String)
      → Room k n s (read_once r s)
      → Held k n s
      → Moved k n s (read_once r s)
  unfolding read_once
  once r s k n room h =
      read-Moved k n r.body r.now (record s { saving = r.saving }) room
        (record { sorted = h.sorted; found = h.found })

  -- As long as no more nonces were stored than the store has places left, a nonce is in it.
  read_all-has_seen :
      (rs : List Reading) (k : ℕ) (n : String) (s : NonceDedupStore)
      → k + stored_by rs s ≤ s.max_entries
      → Held k n s
      → has_seen n (read_all rs s) ≡ true
  unfolding read_all stored_by
  read_all-has_seen [] k n s few h = Held-has_seen k n s h
  read_all-has_seen (r ∷ rs) k n s few h = elim (Bool-cases (may_store (read_once r s).0)) [
    | inl stored ↦
        let left : k + suc (stored_by rs (read_once r s).1) ≤ s.max_entries = rw stored at few in
        let moved = once r s k n (λ _. omega (arith, left)) h in
        read_all-has_seen rs (suc k) n (read_once r s).1 (rw (moved.0) (omega (arith, left)))
          (rw stored at (moved.1))
    | inr kept ↦
        let left : k + stored_by rs (read_once r s).1 ≤ s.max_entries = rw kept at few in
        let moved = once r s k n (λ e. absurd (cc)) h in
        read_all-has_seen rs k n (read_once r s).1 (rw (moved.0) left) (rw kept at (moved.1))
  ]

  -- A trigger that was accepted, when the clock was later than all entries of the store, is refused as
  -- a replay when the same file is read again, at any time, after any other reads of any files at any
  -- times, as long as fewer of these were accepted, or raised an exception that is no refusal, than
  -- the store has places; and the store stays as it is.
  pub accepted_replayed :
      (body : Body) (t : ValidatedTrigger) (now later : ℕ) (s : NonceDedupStore)
      (others : List Reading)
      → (read_and_validate_trigger valid_time body now s).0 ≡ accepted t
      → AllBefore now s.entries
      → stored_by others (read_and_validate_trigger valid_time body now s).1 < s.max_entries
      → let s' = read_all others (read_and_validate_trigger valid_time body now s).1 in
        read_and_validate_trigger valid_time body later s' ≡ (replayed, s')
  accepted_replayed body t now later s others h before few =
      let (fs, eb, g, marked) = accepted-Genuine valid_time body t now s h in
      let s1 : NonceDedupStore = (read_and_validate_trigger valid_time body now s).1 in
      let s' = read_all others s1 in
      let room : 1 ≤ s.max_entries = omega (arith, few) in
      let first = mark_seen_first t.nonce now s g.nonce_new (ap (λ p. p.1) marked) room before in
      let held : Held 1 t.nonce s1 = subst (λ p. Held 1 t.nonce p.0) marked first in
      let size : s1.max_entries ≡ s.max_entries =
        sym (ap (λ p. p.0.max_entries) marked) ∙ mark_seen-max t.nonce now s in
      let seen = read_all-has_seen others 1 t.nonce s1 (rw size (omega (arith, few))) held in
      ap (λ b. read_and_validate_trigger valid_time b later s') eb
      ∙ revalidated valid_time fs t later s' g.keys g.operation g.fields
      ∙ consume_seen t later s' seen
