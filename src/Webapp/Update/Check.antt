-- ===== src/Webapp/Update/Check.antt =====
-- `update_check_handler` of src/pv_inverter_proxy/webapp.py, with its own rate limiter.
pub mod Blind
use pv_inverter_master.Base.{
  ℕ, String, Bool, true, false, Option, none, some, List, [], ◌∷◌, ◌++◌, str_eq, if◌then◌else◌,
  Dict, lookup,
}
use pv_inverter_master.Json.{Value, text, boolean, null, truthy}
use pv_inverter_master.Updater.Github.{ReleaseInfo}
use pv_inverter_master.Updater.RateLimit.{RateLimiter, check, normalize_ip}
use pv_inverter_master.Updater.Scheduler.{UpdateCheckScheduler, Surroundings, check_once}
use pv_inverter_master.Webapp.Update.{AuditLine}

-- 429 with the time to wait, 503, and 200 with what the body tells.
pub data Checked : Type 0 where
  rate_limited : ℕ → Checked
  scheduler_not_running : Checked
  checked : Bool → Value → Checked

pub record CheckSite : Type 0 where
  pub limiter : RateLimiter
  pub scheduler : Option UpdateCheckScheduler
  pub audit_log : List AuditLine

-- The attributes of a ReleaseInfo.
abbrev pub attributes : ReleaseInfo → Dict Value
attributes r =
    ("tag_name", text r.tag_name)
    ∷ ("published_at", text r.published_at)
    ∷ ("body", text r.body)
    ∷ ("html_url", text r.html_url)
    ∷ ("prerelease", boolean r.prerelease)
    ∷ []

abbrev pub or_value : Value → Option Value → Value
or_value d none = d
or_value d (some v) = v

-- `getattr(result, name, default)`
unfoldable pub getattr : ReleaseInfo → String → Value → Value
getattr r name default = or_value default (lookup name (attributes r))

pub answer_check : Option ReleaseInfo → Checked
unfolding getattr
answer_check none = checked false null
answer_check (some r) =
    checked (truthy (getattr r "available" (boolean false))) (getattr r "latest_version" null)

-- The line of a refused request; `auditable` tells whether it can be written.
abbrev pub refused_line : Bool → Option String → List AuditLine → List AuditLine
refused_line true remote l =
    l ++ record { ip = normalize_ip remote; outcome = "429_rate_limited" } ∷ []
refused_line false remote l = l

module _ (py_str : Value → String) where
  pub with_scheduler : Surroundings → Option UpdateCheckScheduler → CheckSite → CheckSite × Checked
  unfolding answer_check
  with_scheduler e none s = (s, scheduler_not_running)
  with_scheduler e (some u) s =
      let (u', r) = check_once py_str e u in (record s { scheduler = some u' }, answer_check r)

  pub admit :
      (Bool × ℕ) × RateLimiter
      → Bool
      → Option String
      → Surroundings
      → CheckSite
      → CheckSite × Checked
  unfolding with_scheduler
  admit ((true, after), l) auditable remote e s =
      with_scheduler e s.scheduler (record s { limiter = l })
  admit ((false, after), l) auditable remote e s = (
    record s { limiter = l; audit_log = refused_line auditable remote s.audit_log },
    rate_limited after,
  )

  unfoldable pub update_check_handler :
      ℕ → Bool → Option String → Surroundings → CheckSite → CheckSite × Checked
  unfolding admit
  update_check_handler mono auditable remote e s =
      admit (check mono remote s.limiter) auditable remote e s
