-- ===== src/Updater/Tests.antt =====
-- The theorems of the update subsystem at concrete inputs.
use pv_inverter_master.Base.{
  ℕ, ◌≡◌, ◌≤◌, refl, String, true, false, Option, some, List, [], ◌∷◌, arith,
}
use pv_inverter_master.Json.{text, object, integer, Fields, end, field, array, nil, get, is_one}
use pv_inverter_master.Base.{pos}
use pv_inverter_master.Updater.RateLimit.{default_window, retry_after}
use pv_inverter_master.Updater.RateLimit.Sliding.{
  answers, spec_answers, nobody, answers-eq-spec_answers, retry_after_bounds,
}
use pv_inverter_master.Updater.Csrf.{
  Request, csrf_middleware, needs_check, handled_needs_token, compare_digest,
}
use pv_inverter_master.Updater.Status.{is_update_running, running_needs_record, is_idle}
use pv_inverter_master.Updater.Status
use pv_inverter_master.Updater.Texts.{is_empty, strip_prefix}

abbrev traffic : List (ℕ × Option String)
traffic = (1000, some "10.0.0.7") ∷ (2000, some "::ffff:10.0.0.7") ∷ (61000, some "10.0.0.7") ∷ []

answers-eq-spec_answers_example :
    answers traffic (record { window = default_window; last_seen = [] })
    ≡ spec_answers default_window traffic nobody
answers-eq-spec_answers_example =
    answers-eq-spec_answers default_window traffic (omega arith, (omega arith, (omega arith, tt)))

retry_after_bounds_example : 1 ≤ retry_after 60000 31500 1000
retry_after_bounds_example = (retry_after_bounds 60000 31500 1000 (omega arith) refl).0

abbrev start_request : Request
start_request = record {
  method = "POST";
  path = "/api/update/start";
  cookie = some "c0ffee";
  header = some "c0ffee";
}

handled_needs_token_example :
    (t : String) × (start_request.cookie ≡ some t)
    × (start_request.header ≡ some t)
    × (is_empty t ≡ false)
unfolding needs_check csrf_middleware compare_digest strip_prefix
handled_needs_token_example = handled_needs_token start_request refl refl

abbrev running_fields : Fields
running_fields = field "schema_version" (integer (pos 1)) (
    field "current" (object (field "phase" (text "pip_install") end))
      (field "history" (array nil) end))

running_needs_record_example :
    (fs : Fields) × (cur : Fields) × (p : String) × (Status.json (object running_fields)
      ≡ Status.json (object fs))
    × (is_one (get "schema_version" fs) ≡ true)
    × (get "current" fs ≡ object cur)
    × (get "phase" cur ≡ text p)
    × (is_idle p ≡ false)
    × ((is_update_running (Status.json (object running_fields))).1 ≡ p)
unfolding is_update_running get
running_needs_record_example = running_needs_record (Status.json (object running_fields)) refl
