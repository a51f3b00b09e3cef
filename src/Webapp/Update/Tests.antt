-- ===== src/Webapp/Update/Tests.antt =====
-- The theorems of the update handlers at concrete requests.
use pv_inverter_master.Control.Storage.{complete}
use pv_inverter_master.Base.{
  ◌≡◌, refl, String, Bool, true, false, none, some, [], ◌∷◌, ◌++◌, lookup,
}
use pv_inverter_master.Cache
use pv_inverter_master.Context.{AppContext, enter_maintenance_mode}
use pv_inverter_master.Control.{initial, Clock, is_model_123_address}
use pv_inverter_master.Json.{Value, text, object, end, field, get, has_key}
use pv_inverter_master.Proxy.{Slave, detect, busy, handle_write}
use pv_inverter_master.StateFile
use pv_inverter_master.Updater.Exec.{Written, written, unwritten}
use pv_inverter_master.Updater.Nonces.{NonceDedupStore, has_seen, mark_seen}
use pv_inverter_master.Updater.RateLimit.{check}
use pv_inverter_master.Updater.RateLimit
use pv_inverter_master.Updater.Status
use pv_inverter_master.Updater.Status.{is_update_running, load_status, current_phase}
use pv_inverter_master.Updater.Texts.{matches_sha, strip_prefix}
use pv_inverter_master.Updater.Trigger.{Op, read_and_validate_trigger}
use pv_inverter_master.Updater.Trigger
use pv_inverter_master.Updater.Trigger.Handover.{trigger_of}
use pv_inverter_master.Updater.TriggerWriter.{
  TriggerPayload, validate, write_trigger, write_payload,
}
use pv_inverter_master.Webapp.Update.{
  Site, Request, alive, closed, accepted, write_failed, update_start_handler, start_body,
  start_texts, start_payload, hand_over, settle_write, answer_write, announce, log_and_respond,
  audit, reached,
}
use pv_inverter_master.Webapp.Update.Settled.{IsAdmitted, IsAnnounced, IsSettled}
use pv_inverter_master.Webapp.Update.Accepted.{
  IsAsked, accepted_start_runs, update_start_handler-IsSettled,
}
use pv_inverter_master.Webapp.Update.Stuck.{failed_start_blocks}
use pv_inverter_master.Updater.Github.{raised}
use pv_inverter_master.Updater.Scheduler.{Surroundings, UpdateCheckScheduler, inactive}
use pv_inverter_master.Webapp.Update.Check.{CheckSite, update_check_handler}
use pv_inverter_master.Webapp.Update.Check.Blind.{IsBlind, check_answers_nothing}

abbrev app : AppContext
app = record {
  venus_os_detected = false;
  venus_os_detected_ts = 0;
  venus_os_client_ip = "";
  last_modbus_client_ip = "10.0.0.5";
  maintenance_mode = false;
  maintenance_entered_at = none;
  override_log = none;
}

abbrev site : Site
site = record {
  limiter = record { window = 60000; last_seen = [] };
  app_ctx = some app;
  status_file = Status.missing;
  trigger_file = Trigger.missing;
  audit_log = [];
  clients = record { name = "a"; link = alive } ∷ record { name = "b"; link = closed } ∷ [];
  notified = [];
}

abbrev sha : String
sha = "0123456789abcdef0123456789abcdef01234567"

abbrev request : Written → Request
request w = record {
  remote = some "10.0.0.9";
  body = some (object (field "op" (text "update") (field "target_sha" (text sha) end)));
  mono = 5000;
  wall = 1700000000000;
  requested_at = "2025-01-01T00:00:00Z";
  nonce = "new";
  written = w;
  auditable = true;
}

abbrev store : NonceDedupStore
store = record { max_entries = 50; entries = []; saving = written }

abbrev any_time : String → Bool
any_time s = true

started : (update_start_handler (request written) site).1 ≡ accepted "new"
unfolding update_start_handler start_body start_texts start_payload hand_over settle_write
    answer_write announce log_and_respond audit check is_update_running load_status current_phase
    validate matches_sha write_trigger write_payload get has_key RateLimit.normalize_ip strip_prefix
    lookup
started = refl

accepted_start_runs_example :
    (p : TriggerPayload) × (o : Op) × IsAsked (request written) p
    × IsAdmitted (request written) site
    × ("new" ≡ p.nonce)
    × IsAnnounced (request written) site (update_start_handler (request written) site).0
    × (read_and_validate_trigger any_time
          (update_start_handler (request written) site).0.trigger_file
          9000
          store
        ≡ (Trigger.accepted (trigger_of o p), (mark_seen p.nonce 9000 store).0))
unfolding has_seen mark_seen
accepted_start_runs_example =
    accepted_start_runs any_time (request written) site "new" 9000 store started refl refl refl

failed : (update_start_handler (request unwritten) site).1 ≡ write_failed
unfolding update_start_handler start_body start_texts start_payload hand_over settle_write
    answer_write announce log_and_respond audit check is_update_running load_status current_phase
    validate matches_sha write_trigger write_payload get has_key RateLimit.normalize_ip strip_prefix
    lookup
failed = refl

abbrev slave : Slave
slave = record {
  cache = Cache.new [] 30000;
  control = initial;
  app = none;
  has_distributor = true;
  disk = record {
    last_limit = none;
    ui_state = none;
    state_json = StateFile.missing;
    last_limit_write = complete;
    ui_state_write = complete;
    state_json_writable = true;
  };
  passed = [];
  distributed = [];
  last_successful_read = 0;
  read_count = 0;
  inflight_count = 0;
  inflight_drained = true;
}

abbrev clock : Clock
clock = record { wall = 1700000000000; mono = 5000 }

failed_start_blocks_example :
    ((update_start_handler (request unwritten) site).0.notified ≡ [] ++ reached site.clients)
    × (handle_write clock 40154
          (50 ∷ [])
          (record slave { app = (update_start_handler (request unwritten) site).0.app_ctx })
        ≡ (
          record slave {
            app = detect true clock (some (enter_maintenance_mode 1700000000000 app));
          },
          busy,
        ))
unfolding is_model_123_address
failed_start_blocks_example =
    failed_start_blocks (request unwritten) site app clock 40154 (50 ∷ []) slave failed refl refl

abbrev py_str : Value → String
py_str v = "?"

abbrev surroundings : Surroundings
surroundings = record { probe = inactive; reply = raised; written = written; now = 9000 }

abbrev scheduler : UpdateCheckScheduler
scheduler = record {
  client = record { etag = none; cached_release = none; state_file = Status.missing };
  info = record {
    current_version = some "8.0.0";
    available_update = none;
    update_last_check_at = none;
    update_last_check_failed_at = none;
    has_webapp = false;
    broadcasts = 0;
  };
  last_check_at = none;
  last_check_failed_at = none;
}

abbrev check_site : CheckSite
check_site = record {
  limiter = record { window = 60000; last_seen = [] };
  scheduler = some scheduler;
  audit_log = [];
}

check_answers_nothing_example :
    IsBlind py_str surroundings scheduler
      (update_check_handler py_str 5000 true (some "10.0.0.9") surroundings check_site)
unfolding check lookup
check_answers_nothing_example =
    check_answers_nothing py_str 5000 true (some "10.0.0.9") surroundings check_site scheduler refl
      refl

update_start_handler-IsSettled_example :
    IsSettled
      (IsAsked (request unwritten))
      (request unwritten)
      site
      (update_start_handler (request unwritten) site).0
      (update_start_handler (request unwritten) site).1
update_start_handler-IsSettled_example = update_start_handler-IsSettled (request unwritten) site
