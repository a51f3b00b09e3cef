-- ===== src/Webapp/Update.antt =====
-- The update handlers of src/pv_inverter_proxy/webapp.py: `update_start_handler`, `update_rollback_handler` and
-- what they share. The CSRF middleware has let the request pass. The times, the nonce and how each
-- write ends come with the request.
pub mod Settled
pub mod Accepted
pub mod Stuck
pub mod Check
mod Tests
use pv_inverter_master.Base.{
  ℕ, ◌+◌, String, Bool, true, false, not, Option, none, some, List, [], ◌∷◌, ◌++◌, if◌then◌else◌,
}
use pv_inverter_master.Json.{
  Value, null, boolean, integer, fraction, text, array, object, Items, nil, Fields, end, get,
  has_key,
}
use pv_inverter_master.Context.{AppContext, enter_maintenance_mode}
use pv_inverter_master.Updater.Exec.{Written}
use pv_inverter_master.Updater.RateLimit.{RateLimiter, check, normalize_ip}
use pv_inverter_master.Updater.Status.{FileText, is_update_running}
use pv_inverter_master.Updater.Trigger.{Body}
use pv_inverter_master.Updater.TriggerWriter.{
  TriggerPayload, validate, Result, returned, value_error, os_error, write_trigger,
}

-- What a send to a WebSocket client does: it arrives, fails as on a closed connection, or raises
-- another exception.
pub data Link : Type 0 where
  alive closed odd : Link

pub record Client : Type 0 where
  pub name : String
  pub link : Link

-- A line of the audit log: the normalised address and the outcome.
pub record AuditLine : Type 0 where
  pub ip : String
  pub outcome : String

-- What the handlers read and write. `notified` are the clients that got the message, in order.
pub record Site : Type 0 where
  pub limiter : RateLimiter
  pub app_ctx : Option AppContext
  pub status_file : FileText
  pub trigger_file : Body
  pub audit_log : List AuditLine
  pub clients : List Client
  pub notified : List String

-- A request with its surroundings: the monotonic and the wall clock, the fresh texts of a payload, and
-- whether the trigger and the audit line can be written. A body of none is no JSON.
pub record Request : Type 0 where
  pub remote : Option String
  pub body : Option Value
  pub mono : ℕ
  pub wall : ℕ
  pub requested_at : String
  pub nonce : String
  pub written : Written
  pub auditable : Bool

-- The statuses 429, 409, 400, 202, 500 and the 500 of an exception that the handler lets through.
pub data Response : Type 0 where
  rate_limited : ℕ → Response
  update_in_progress : String → Response
  invalid : Response
  accepted : String → Response
  write_failed : Response
  crashed : Response

-- `audit_log_append`, whose exceptions `_log_and_respond` catches.
unfoldable pub audit : String → Request → Site → Site
audit outcome q s =
    if q.auditable
    then record s {
      audit_log = s.audit_log ++ record { ip = normalize_ip q.remote; outcome = outcome } ∷ [];
    }
    else s

-- `_log_and_respond`
unfoldable pub log_and_respond : Option String → Response → Request → Site → Site × Response
unfolding audit
log_and_respond none r q s = (s, r)
log_and_respond (some outcome) r q s = (audit outcome q s, r)

abbrev stays : Link → Bool
stays closed = false
stays _ = true

abbrev arrives : Link → Bool
arrives alive = true
arrives _ = false

-- The clients that stay connected, and those that got the message.
pub kept : List Client → List Client
kept [] = []
kept (c ∷ cs) = let rest = kept cs in if stays c.link then c ∷ rest else rest

pub reached : List Client → List String
reached [] = []
reached (c ∷ cs) = let rest = reached cs in if arrives c.link then c.name ∷ rest else rest

unfoldable pub broadcast_update_in_progress : Site → Site
unfolding kept reached
broadcast_update_in_progress s = record s {
  clients = kept s.clients;
  notified = s.notified ++ reached s.clients;
}

abbrev pub entered : ℕ → Option AppContext → Option AppContext
entered wall none = none
entered wall (some a) = some (enter_maintenance_mode wall a)

-- Maintenance mode and the broadcast, before the trigger is written.
unfoldable pub announce : Request → Site → Site
announce q s = broadcast_update_in_progress (record s { app_ctx = entered q.wall s.app_ctx })

pub answer_write : Result → TriggerPayload → Request → Site → Site × Response
answer_write returned p q s = log_and_respond (some "accepted") (accepted p.nonce) q s
answer_write os_error p q s = log_and_respond (some "500_trigger_write_failed") write_failed q s
answer_write value_error p q s = (s, crashed)

pub settle_write : Result × Body → TriggerPayload → Request → Site → Site × Response
unfolding answer_write
settle_write (r, file) p q s = answer_write r p q (record s { trigger_file = file })

-- The trigger is written, and the outcome logged.
unfoldable pub hand_over : TriggerPayload → Request → Site → Site × Response
unfolding settle_write
hand_over p q s = settle_write (write_trigger q.written p s.trigger_file) p q s

abbrev pub payload : String → String → Request → TriggerPayload
payload op sha q = record {
  op = op;
  target_sha = sha;
  requested_at = q.requested_at;
  requested_by = "webapp";
  nonce = q.nonce;
}

-- The steps behind the guards of a start: the body, the payload and its validation.
pub start_payload : TriggerPayload → Request → Site → Site × Response
start_payload p q s =
    if validate p then hand_over p q (announce q s) else log_and_respond none invalid q s

-- `body.get("op", "update")`
abbrev pub op_value : Fields → Value
op_value fs = if has_key "op" fs then get "op" fs else text "update"

pub start_texts : Value → Value → Request → Site → Site × Response
unfolding start_payload
start_texts (text op) (text sha) q s = start_payload (payload op sha q) q s
start_texts _ _ q s = log_and_respond none invalid q s

pub start_body : Option Value → Request → Site → Site × Response
unfolding start_texts
start_body none q s = log_and_respond none invalid q s
start_body (some (object fs)) q s = start_texts (op_value fs) (get "target_sha" fs) q s
start_body (some _) q s = log_and_respond none invalid q s

pub rollback_body : Request → Site → Site × Response
rollback_body q s = hand_over (payload "rollback" "previous" q) q (announce q s)

-- The guards that both handlers begin with: the rate limit, then an update that runs.
abbrev pub refuse_running :
    Bool × String → (Request → Site → Site × Response) → Request → Site → Site × Response
refuse_running (true, phase) next q s =
    log_and_respond (some "409_conflict") (update_in_progress phase) q s
refuse_running (false, phase) next q s = next q s

abbrev pub guarded :
    (Bool × ℕ) × RateLimiter → (Request → Site → Site × Response) → Request → Site → Site × Response
guarded ((true, after), l) next q s =
    refuse_running (is_update_running s.status_file) next q (record s { limiter = l })
guarded ((false, after), l) next q s =
    log_and_respond (some "429_rate_limited") (rate_limited after) q (record s { limiter = l })

unfoldable pub update_start_handler : Request → Site → Site × Response
unfolding start_body
update_start_handler q s =
    guarded (check q.mono q.remote s.limiter) (λ q s. start_body q.body q s) q s

unfoldable pub update_rollback_handler : Request → Site → Site × Response
unfolding rollback_body
update_rollback_handler q s = guarded (check q.mono q.remote s.limiter) rollback_body q s
