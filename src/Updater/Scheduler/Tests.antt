-- ===== src/Updater/Scheduler/Tests.antt =====
-- The theorems of the update check at concrete replies.
use pv_inverter_master.Base.{◌≡◌, refl, String, true, false, none, some, List, [], ◌∷◌, Option}
use pv_inverter_master.Json.{Value, text, boolean, object, Fields, end, field, get}
use pv_inverter_master.Updater.Exec.{written}
use pv_inverter_master.Updater.Github.{
  GithubReleaseClient, Reply, raised, answered, load_state, fetch_latest_release, fetched_release,
}
use pv_inverter_master.Updater.Github.Cached.{fetched_release_survives}
use pv_inverter_master.Updater.Scheduler.{UpdateCheckScheduler, Surroundings, inactive, check_once}
use pv_inverter_master.Updater.Scheduler.Failures.{IsQuiet, failed_fetch_unnoticed}
use pv_inverter_master.Updater.Scheduler.Offers.{IsOffered, run, offers_are_upgrades}
use pv_inverter_master.Updater.Status
use pv_inverter_master.Updater.Version.{parse, str}
use pv_inverter_master.Updater.Version.RoundTrip.{parse-str}

parse-str_example :
    parse (str (record { major = 8; minor = 12; patch = 0 }))
    ≡ some (record { major = 8; minor = 12; patch = 0 })
parse-str_example = parse-str (record { major = 8; minor = 12; patch = 0 })

abbrev py_str : Value → String
py_str v = "?"

abbrev release : Fields
release = field "tag_name" (text "v8.1.0") (field "prerelease" (boolean false) end)

abbrev client : GithubReleaseClient
client = record { etag = some "old"; cached_release = none; state_file = Status.missing }

fetched_release_survives_example :
    let (c', r) =
      fetch_latest_release py_str written
        (answered 200 (some (object release)) (some "new"))
        client in
    (r ≡ some (fetched_release py_str release))
    × (load_state py_str c'.state_file ≡ some c')
    × ((body : Option Value) (e : Option String)
        → fetch_latest_release py_str written (answered 304 body e) c' ≡ (c', r))
unfolding get
fetched_release_survives_example =
    fetched_release_survives py_str written release (some "new") client refl (λ e. cc) refl

abbrev meets : Reply → Surroundings
meets r = record { probe = inactive; reply = r; written = written; now = 9000 }

abbrev scheduler : UpdateCheckScheduler
scheduler = record {
  client = client;
  info = record {
    current_version = some "8.0.0";
    available_update = none;
    update_last_check_at = none;
    update_last_check_failed_at = none;
    has_webapp = true;
    broadcasts = 0;
  };
  last_check_at = none;
  last_check_failed_at = none;
}

abbrev checks : List Surroundings
checks = meets raised ∷ meets (answered 200 (some (object release)) none) ∷ []

offers_are_upgrades_example :
    IsOffered (some "8.0.0") (run py_str checks scheduler).info.available_update
offers_are_upgrades_example = offers_are_upgrades py_str checks scheduler tt

failed_fetch_unnoticed_example :
    let s' = (check_once py_str (meets raised) scheduler).0 in
    (s'.last_check_at ≡ some 9000)
    × (s'.info.update_last_check_at ≡ some 9000)
    × (s'.info.available_update ≡ none)
    × IsQuiet scheduler (run py_str checks scheduler)
failed_fetch_unnoticed_example = failed_fetch_unnoticed py_str (meets raised) scheduler checks tt
