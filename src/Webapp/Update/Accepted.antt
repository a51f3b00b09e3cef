-- ===== src/Webapp/Update/Accepted.antt =====
-- What a request to start an update leaves behind, for each of its answers.
use pv_inverter_master.Base.{
  ℕ, ◌≡◌, refl, ap, ◌∙◌, String, Bool, true, false, Option, none, some, Bool-cases, inl, inr,
}
use pv_inverter_master.Json.{Value, text, object, Fields, get}
use pv_inverter_master.Updater.Exec.{written}
use pv_inverter_master.Updater.Trigger.{Body, json, Op, read, read_op, read_and_validate_trigger}
use pv_inverter_master.Updater.Trigger
use pv_inverter_master.Updater.Trigger.Handover.{trigger_of, written_trigger_accepted}
use pv_inverter_master.Updater.Nonces.{NonceDedupStore, has_seen, mark_seen}
use pv_inverter_master.Updater.TriggerWriter.{
  TriggerPayload, validate, write_payload, write_trigger,
}
use mathlib.Core.Path.{subst}
use pv_inverter_master.Webapp.Update.Settled.{
  Untouched, IsSettled, IsAdmitted, IsAnnounced, log-IsSettled, hand_over-IsSettled,
  guarded-IsSettled,
}
use pv_inverter_master.Webapp.Update.{
  Site, Request, Response, invalid, accepted, payload, start_payload, op_value, start_texts,
  start_body, rollback_body, update_start_handler, update_rollback_handler,
}

-- The payload that the body of a start asks for.
abbrev pub IsAsked : Request → TriggerPayload → Type 0
IsAsked q p =
    (fs : Fields) × (op : String) × (sha : String) × (q.body ≡ some (object fs))
    × (op_value fs ≡ text op)
    × (get "target_sha" fs ≡ text sha)
    × (p ≡ payload op sha q)

start_payload-IsSettled :
    (q : Request) (s s' : Site) (p : TriggerPayload)
    → IsAsked q p
    → IsAdmitted q s
    → Untouched s s'
    → IsSettled (IsAsked q) q s (start_payload p q s').0 (start_payload p q s').1
unfolding start_payload
start_payload-IsSettled q s s' p asked adm u = elim (Bool-cases (validate p)) [
  | inl valid ↦ rw valid (hand_over-IsSettled (IsAsked q) q s p s' asked valid adm u)
  | inr bad ↦ rw bad (log-IsSettled (IsAsked q) q s none invalid s' (u, adm))
]

start_texts-IsSettled :
    (q : Request) (s s' : Site) (fs : Fields) (v w : Value)
    → q.body ≡ some (object fs)
    → op_value fs ≡ v
    → get "target_sha" fs ≡ w
    → IsAdmitted q s
    → Untouched s s'
    → IsSettled (IsAsked q) q s (start_texts v w q s').0 (start_texts v w q s').1
unfolding start_texts
start_texts-IsSettled q s s' fs (text op) (text sha) b e f adm u =
    start_payload-IsSettled q s s' (payload op sha q) (fs, op, sha, b, e, f, refl) adm u
start_texts-IsSettled q s s' fs _ _ b e f adm u =
    log-IsSettled (IsAsked q) q s none invalid s' (u, adm)

start_body-IsSettled :
    (q : Request) (s s' : Site) (b : Option Value)
    → q.body ≡ b
    → IsAdmitted q s
    → Untouched s s'
    → IsSettled (IsAsked q) q s (start_body b q s').0 (start_body b q s').1
unfolding start_body
start_body-IsSettled q s s' (some (object fs)) e adm u =
    start_texts-IsSettled q s s' fs (op_value fs) (get "target_sha" fs) e refl refl adm u
start_body-IsSettled q s s' _ e adm u = log-IsSettled (IsAsked q) q s none invalid s' (u, adm)

-- The answers to a start. After 429, 409 and 400 the trigger file, the application context and the clients
-- are as they were; 429 comes with the limiter's refusal and its time to wait, and 409, when the limiter
-- accepted, with the phase of the update that runs. After 400, 202 and 500 the limiter accepted and no
-- update runs. After 202 and 500 maintenance mode is entered and the clients are told; 202 leaves the
-- trigger of a valid payload that the body asks for, and 500 the old trigger, or the new one if only its
-- mode could not be set. No exception gets out.
pub update_start_handler-IsSettled :
    (q : Request) (s : Site)
    → IsSettled (IsAsked q) q s (update_start_handler q s).0 (update_start_handler q s).1
unfolding update_start_handler
update_start_handler-IsSettled q s =
    guarded-IsSettled (IsAsked q) q s (λ q s. start_body q.body q s)
      (λ s' adm u. start_body-IsSettled q s s' q.body refl adm u)

-- The same of a rollback, whose payload is the rollback to the previous release, if the fresh texts make
-- that payload valid.
pub update_rollback_handler-IsSettled :
    (q : Request) (s : Site)
    → validate (payload "rollback" "previous" q) ≡ true
    → IsSettled
        (λ p. p ≡ payload "rollback" "previous" q)
        q
        s
        (update_rollback_handler q s).0
        (update_rollback_handler q s).1
unfolding update_rollback_handler rollback_body
update_rollback_handler-IsSettled q s valid =
    let asked = λ (p : TriggerPayload). p ≡ payload "rollback" "previous" q in
    guarded-IsSettled asked q s rollback_body (λ s' adm u.
      hand_over-IsSettled asked q s (payload "rollback" "previous" q) s' refl valid adm u)

-- What a 202 of either handler promises.
accepted_runs :
    (Asked : TriggerPayload → Type 0) (valid_time : String → Bool) (q : Request) (s s' : Site)
    (r : Response) (n : String) (now : ℕ) (store : NonceDedupStore)
    → ((p : TriggerPayload) → Asked p → (p.nonce ≡ q.nonce) × (p.requested_at ≡ q.requested_at))
    → IsSettled Asked q s s' r
    → r ≡ accepted n
    → valid_time q.requested_at ≡ true
    → has_seen q.nonce store ≡ false
    → (mark_seen q.nonce now store).1 ≡ true
    → (p : TriggerPayload) × (o : Op) × Asked p
      × IsAdmitted q s
      × (n ≡ p.nonce)
      × IsAnnounced q s s'
      × (read_and_validate_trigger valid_time s'.trigger_file now store
          ≡ (Trigger.accepted (trigger_of o p), (mark_seen p.nonce now store).0))
unfolding write_trigger write_payload
accepted_runs Asked valid_time q s s' r n now store texts h e time new saved =
    let (p, asked, same, valid, adm, told, file) = subst (IsSettled Asked q s s') e h in
    let (en, et) = texts p asked in
    let (o, ro, run) =
      written_trigger_accepted valid_time written p s.trigger_file now store valid (λ k. cc)
        (rw et time) (rw en new) (rw en saved) in
    (
      p,
      o,
      asked,
      adm,
      same,
      told,
      ap (λ f. read_and_validate_trigger valid_time f now store) file ∙ (rw valid at run),
    )

asked_texts :
    (q : Request) (p : TriggerPayload)
    → IsAsked q p
    → (p.nonce ≡ q.nonce) × (p.requested_at ≡ q.requested_at)
asked_texts q p (fs, op, sha, b, eo, et, ep) = (ap (λ p. p.nonce) ep, ap (λ p. p.requested_at) ep)

-- A start that is answered 202 passed the rate limit while no update ran, is announced, and leaves a
-- trigger that the privileged reader accepts as the operation and target of the request's body, if
-- the fresh time has the reader's form, the fresh nonce is new and the nonce store can be saved.
pub accepted_start_runs :
    (valid_time : String → Bool) (q : Request) (s : Site) (n : String) (now : ℕ)
    (store : NonceDedupStore)
    → (update_start_handler q s).1 ≡ accepted n
    → valid_time q.requested_at ≡ true
    → has_seen q.nonce store ≡ false
    → (mark_seen q.nonce now store).1 ≡ true
    → (p : TriggerPayload) × (o : Op) × IsAsked q p
      × IsAdmitted q s
      × (n ≡ p.nonce)
      × IsAnnounced q s (update_start_handler q s).0
      × (read_and_validate_trigger valid_time (update_start_handler q s).0.trigger_file now store
          ≡ (Trigger.accepted (trigger_of o p), (mark_seen p.nonce now store).0))
accepted_start_runs valid_time q s n now store e time new saved =
    accepted_runs (IsAsked q) valid_time q s (update_start_handler q s).0
      (update_start_handler q s).1 n now store (asked_texts q) (update_start_handler-IsSettled q s)
      e time new saved
