-- ===== src/Updater/Scheduler.antt =====
-- One check of updater/scheduler.py, with the callback `_on_update_available` of __main__.py that the program
-- gives it. Times are those of the wall clock, and the clients of a broadcast are counted as one.
pub mod Offers
pub mod Failures
mod Tests
use pv_inverter_master.Base.{
  ℕ, ◌+◌, String, Bool, true, false, not, Option, none, some, ◌&&◌, str_eq, if◌then◌else◌,
}
use pv_inverter_master.Json.{Value}
use pv_inverter_master.Sunspec.{codes}
use pv_inverter_master.Updater.Exec.{Written}
use pv_inverter_master.Updater.Github.{
  ReleaseInfo, GithubReleaseClient, Reply, fetch_latest_release,
}
use pv_inverter_master.Updater.Version.{Version, parse, newer}

-- `available_update`: its latest version and its tag are the same text.
pub record Offer : Type 0 where
  pub tag_name : String
  pub release_notes : String
  pub published_at : String
  pub html_url : String

-- What the callback reads and writes of the application context. `has_webapp` and the number of
-- broadcasts stand for the web application.
pub record UpdateInfo : Type 0 where
  pub current_version : Option String
  pub available_update : Option Offer
  pub update_last_check_at : Option ℕ
  pub update_last_check_failed_at : Option ℕ
  pub has_webapp : Bool
  pub broadcasts : ℕ

-- `current_version or "unknown"`
abbrev pub or_unknown : Option String → String
or_unknown none = "unknown"
or_unknown (some s) = if str_eq s "" then "unknown" else s

-- Against a current version that cannot be parsed every release is newer.
abbrev pub newer_than : Version → Option Version → Bool
newer_than latest none = true
newer_than latest (some current) = newer latest current

-- `is_newer`, from the parsed tag.
abbrev pub is_newer : Option Version → String → Bool
is_newer none current = false
is_newer (some latest) current =
    if str_eq current "unknown" then true else newer_than latest (parse (codes current))

abbrev pub offer_of : ReleaseInfo → Offer
offer_of r = record {
  tag_name = r.tag_name;
  release_notes = r.body;
  published_at = r.published_at;
  html_url = r.html_url;
}

-- The update that is offered after a release was fetched.
abbrev pub offered : ReleaseInfo → Option String → Option Offer
offered r current =
    if is_newer (parse (codes r.tag_name)) (or_unknown current) then some (offer_of r) else none

-- Equality of the dicts.
abbrev pub same_offer : Option Offer → Option Offer → Bool
same_offer none none = true
same_offer (some a) (some b) =
    str_eq a.tag_name b.tag_name
    && str_eq a.release_notes b.release_notes
    && str_eq a.published_at b.published_at
    && str_eq a.html_url b.html_url
same_offer _ _ = false

abbrev pub broadcast : Option Offer → UpdateInfo → UpdateInfo
broadcast previous i =
    if not (same_offer i.available_update previous) && i.has_webapp
    then record i { broadcasts = i.broadcasts + 1 }
    else i

unfoldable pub on_update_available : ℕ → Option ReleaseInfo → UpdateInfo → UpdateInfo
on_update_available now none i = record i { update_last_check_at = some now }
on_update_available now (some r) i =
    broadcast i.available_update
      (record i { update_last_check_at = some now; available_update = offered r i.current_version })

-- The scheduler with the client that it polls and the context that its callback changes.
pub record UpdateCheckScheduler : Type 0 where
  pub client : GithubReleaseClient
  pub info : UpdateInfo
  pub last_check_at : Option ℕ
  pub last_check_failed_at : Option ℕ

-- The probe for an active user: its answer, or an exception.
pub data Probe : Type 0 where
  active inactive broken : Probe

-- What a check meets: the reply of the server, how the cache file is written, and the time.
pub record Surroundings : Type 0 where
  pub probe : Probe
  pub reply : Reply
  pub written : Written
  pub now : ℕ

module _ (py_str : Value → String) where
  -- `check_once`; the callback does not raise, so its handlers are not reached.
  unfoldable pub check_once :
      Surroundings → UpdateCheckScheduler → UpdateCheckScheduler × Option ReleaseInfo
  check_once e s =
      let (c, r) = fetch_latest_release py_str e.written e.reply s.client in
      (
        record s {
          client = c;
          info = on_update_available e.now r s.info;
          last_check_at = some e.now;
        },
        r,
      )

  abbrev pub unless_active :
      Probe → UpdateCheckScheduler → UpdateCheckScheduler → UpdateCheckScheduler
  unless_active active s checked = s
  unless_active _ s checked = checked

  -- `_run_one_iteration`, whose body behind the probe does what `check_once` does.
  unfoldable pub run_one_iteration : Surroundings → UpdateCheckScheduler → UpdateCheckScheduler
  unfolding check_once
  run_one_iteration e s = unless_active e.probe s (check_once e s).0
