-- ===== src/Updater/Trigger/Accepted.antt =====
-- What an accepted trigger guarantees, what a refused one leaves alone, and the replay guard.
use mathlib.Core.Path.{subst}
use pv_inverter_master.Base.{
  ℕ, ◌≡◌, refl, ◌⊎◌, inl, inr, String, Bool, true, false, Option, none, some, arith, Bool-cases,
  sym, ap,
}
use pv_inverter_master.Json.{null, boolean, integer, fraction, text, array, object, Fields, get}
use pv_inverter_master.Updater.Texts.{is_empty}
use pv_inverter_master.Updater.Nonces.{NonceDedupStore, has_seen, mark_seen}
use pv_inverter_master.Updater.Trigger.{
  Body, missing, unreadable, undecodable, corrupt, json, ValidatedTrigger, Outcome, accepted,
  invalid, replayed, read_fields, target_fits, consume, consume_read, with_op, read_op, OpRead,
  read, unknown, unhashable, exact_keys, read_and_validate_trigger,
}
use pv_inverter_master.Updater.Trigger.Shapes.{
  read_target-some, read_text-some, read_time-some, read_fields-some,
}

-- What acceptance means for the trigger, the object that it was read from, and the store before.
pub record Genuine (valid_time : String → Bool) (fs : Fields) (t : ValidatedTrigger)
    (s : NonceDedupStore) : Type 0 where
  pub keys : exact_keys fs ≡ true
  pub operation : read_op (get "op" fs) ≡ read t.op
  pub target : get "target_sha" fs ≡ text t.target_sha
  pub target_form : target_fits t.op t.target_sha ≡ true
  pub time : valid_time t.requested_at ≡ true
  pub author : is_empty t.requested_by ≡ false
  pub nonce_given : get "nonce" fs ≡ text t.nonce
  pub nonce_named : is_empty t.nonce ≡ false
  pub nonce_new : has_seen t.nonce s ≡ false
  pub fields : read_fields valid_time t.op fs ≡ some t

consume_accepted :
    (t u : ValidatedTrigger) (now : ℕ) (s : NonceDedupStore)
    → (consume t now s).0 ≡ accepted u
    → (t ≡ u)
      × (has_seen t.nonce s ≡ false)
      × (mark_seen t.nonce now s ≡ ((consume t now s).1, true))
unfolding consume
consume_accepted t u now s h = ground arith

consume_refused :
    (t : ValidatedTrigger) (now : ℕ) (s : NonceDedupStore)
    → ((consume t now s).0 ≡ replayed) ⊎ ((consume t now s).0 ≡ invalid)
    → (consume t now s).1 ≡ s
unfolding consume
consume_refused t now s h = ground arith

pub consume_seen :
    (t : ValidatedTrigger) (now : ℕ) (s : NonceDedupStore)
    → has_seen t.nonce s ≡ true
    → consume t now s ≡ (replayed, s)
unfolding consume
consume_seen t now s h = rw h

consume_read_accepted :
    (o : Option ValidatedTrigger) (t : ValidatedTrigger) (now : ℕ) (s : NonceDedupStore)
    → (consume_read o now s).0 ≡ accepted t
    → (o ≡ some t)
      × (has_seen t.nonce s ≡ false)
      × (mark_seen t.nonce now s ≡ ((consume_read o now s).1, true))
unfolding consume_read
consume_read_accepted none t now s h = absurd (cc)
consume_read_accepted (some u) t now s h =
    let (same, new, marked) = consume_accepted u t now s h in
    (
      ap some same,
      rw same at new,
      subst (λ v. mark_seen v.nonce now s ≡ ((consume_read (some u) now s).1, true)) same marked,
    )

consume_read_refused :
    (o : Option ValidatedTrigger) (now : ℕ) (s : NonceDedupStore)
    → ((consume_read o now s).0 ≡ replayed) ⊎ ((consume_read o now s).0 ≡ invalid)
    → (consume_read o now s).1 ≡ s
unfolding consume_read
consume_read_refused none now s h = refl
consume_read_refused (some t) now s h = consume_refused t now s h

module _ (valid_time : String → Bool) where
  with_op_accepted :
      (o : OpRead) (fs : Fields) (t : ValidatedTrigger) (now : ℕ) (s : NonceDedupStore)
      → (with_op valid_time o fs now s).0 ≡ accepted t
      → (o ≡ read t.op)
        × (read_fields valid_time t.op fs ≡ some t)
        × (has_seen t.nonce s ≡ false)
        × (mark_seen t.nonce now s ≡ ((with_op valid_time o fs now s).1, true))
  unfolding with_op
  with_op_accepted (read op) fs t now s h =
      let (found, new, marked) = consume_read_accepted (read_fields valid_time op fs) t now s h in
      let same = (read_fields-some valid_time op fs t found).0 in
      (
        ap read (sym same),
        subst (λ o. read_fields valid_time o fs ≡ some t) (sym same) found,
        new,
        marked,
      )
  with_op_accepted unknown fs t now s h = absurd (cc)
  with_op_accepted unhashable fs t now s h = absurd (cc)

  with_op_refused :
      (o : OpRead) (fs : Fields) (now : ℕ) (s : NonceDedupStore)
      → ((with_op valid_time o fs now s).0 ≡ replayed)
        ⊎ ((with_op valid_time o fs now s).0 ≡ invalid)
      → (with_op valid_time o fs now s).1 ≡ s
  unfolding with_op
  with_op_refused (read op) fs now s h = consume_read_refused (read_fields valid_time op fs) now s h
  with_op_refused unknown fs now s h = refl
  with_op_refused unhashable fs now s h = absurd (ground arith)

  genuine :
      (fs : Fields) (t : ValidatedTrigger) (s : NonceDedupStore)
      → exact_keys fs ≡ true
      → read_op (get "op" fs) ≡ read t.op
      → read_fields valid_time t.op fs ≡ some t
      → has_seen t.nonce s ≡ false
      → Genuine valid_time fs t s
  genuine fs t s k o f n =
      let parts = read_fields-some valid_time t.op fs t f in
      let sha = read_target-some t.op (get "target_sha" fs) t.target_sha parts.1 in
      let name = read_text-some (get "nonce" fs) t.nonce parts.4 in
      record {
        keys = k;
        operation = o;
        target = sha.0;
        target_form = sha.1;
        time = (read_time-some valid_time (get "requested_at" fs) t.requested_at parts.2).1;
        author = (read_text-some (get "requested_by" fs) t.requested_by parts.3).1;
        nonce_given = name.0;
        nonce_named = name.1;
        nonce_new = n;
        fields = f;
      }

  -- An accepted trigger came from an object with exactly the five keys, whose operation, target, time,
  -- author and nonce have the required form, and whose nonce was not in the store before; the store
  -- is then the one in which that nonce was marked and saved.
  pub accepted-Genuine :
      (body : Body) (t : ValidatedTrigger) (now : ℕ) (s : NonceDedupStore)
      → (read_and_validate_trigger valid_time body now s).0 ≡ accepted t
      → (fs : Fields) × (body ≡ json (object fs))
        × Genuine valid_time fs t s
        × (mark_seen t.nonce now s ≡ ((read_and_validate_trigger valid_time body now s).1, true))
  unfolding read_and_validate_trigger
  accepted-Genuine (json (object fs)) t now s h = elim (Bool-cases (exact_keys fs)) [
    | inl k ↦
        let (o, f, n, m) = with_op_accepted (read_op (get "op" fs)) fs t now s (rw k at h) in
        (fs, refl, genuine fs t s k o f n, rw k m)
    | inr k ↦ absurd (not_accepted t (rw k at h))
  ]
    where
      not_accepted : (t : ValidatedTrigger) → (◌≡◌ {A = Outcome} invalid (accepted t)) → ⊥
      not_accepted t e = cc
  accepted-Genuine (json null) t now s h = absurd (cc)
  accepted-Genuine (json (boolean b)) t now s h = absurd (cc)
  accepted-Genuine (json (integer z)) t now s h = absurd (cc)
  accepted-Genuine (json fraction) t now s h = absurd (cc)
  accepted-Genuine (json (text x)) t now s h = absurd (cc)
  accepted-Genuine (json (array xs)) t now s h = absurd (cc)
  accepted-Genuine missing t now s h = absurd (cc)
  accepted-Genuine unreadable t now s h = absurd (cc)
  accepted-Genuine corrupt t now s h = absurd (cc)
  accepted-Genuine undecodable t now s h = absurd (cc)

  -- A trigger that is refused as invalid or as a replay leaves the store of nonces as it was.
  pub refused_unchanged :
      (body : Body) (now : ℕ) (s : NonceDedupStore)
      → ((read_and_validate_trigger valid_time body now s).0 ≡ replayed)
        ⊎ ((read_and_validate_trigger valid_time body now s).0 ≡ invalid)
      → (read_and_validate_trigger valid_time body now s).1 ≡ s
  unfolding read_and_validate_trigger
  refused_unchanged (json (object fs)) now s h = elim (Bool-cases (exact_keys fs)) [
    | inl k ↦ rw k (with_op_refused (read_op (get "op" fs)) fs now s (rw k at h))
    | inr k ↦ rw k
  ]
  refused_unchanged (json null) now s h = refl
  refused_unchanged (json (boolean b)) now s h = refl
  refused_unchanged (json (integer z)) now s h = refl
  refused_unchanged (json fraction) now s h = refl
  refused_unchanged (json (text x)) now s h = refl
  refused_unchanged (json (array xs)) now s h = refl
  refused_unchanged missing now s h = refl
  refused_unchanged unreadable now s h = refl
  refused_unchanged corrupt now s h = refl
  refused_unchanged undecodable now s h = refl

  pub revalidated :
      (fs : Fields) (t : ValidatedTrigger) (now : ℕ) (s : NonceDedupStore)
      → exact_keys fs ≡ true
      → read_op (get "op" fs) ≡ read t.op
      → read_fields valid_time t.op fs ≡ some t
      → read_and_validate_trigger valid_time (json (object fs)) now s ≡ consume t now s
  unfolding read_and_validate_trigger
  revalidated fs t now s k o f = rw (k, o, f)
