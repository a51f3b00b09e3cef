-- ===== src/Updater/Scheduler/Failures.antt =====
-- What a check that fails leaves behind.
use pv_inverter_master.Base.{
  ℕ, ◌≡◌, refl, ◌∙◌, ◌==◌, String, false, Option, none, some, List, [], ◌∷◌, Bool-cases, inl, inr,
  not, ◌&&◌,
}
use pv_inverter_master.Json.{Value}
use pv_inverter_master.Updater.Github.{
  Reply, raised, answered, fetch_latest_release, GithubReleaseClient, ReleaseInfo,
}
use pv_inverter_master.Updater.Exec.{Written}
use pv_inverter_master.Updater.Scheduler.{
  UpdateInfo, Offer, on_update_available, broadcast, same_offer, UpdateCheckScheduler, Surroundings,
  Probe, active, inactive, broken, unless_active, check_once, run_one_iteration,
}
use pv_inverter_master.Updater.Scheduler.Offers.{run}

-- A request that raised, or one with another status than 200 and 304.
abbrev pub IsFailed : Reply → Type 0
IsFailed raised = Unit
IsFailed (answered status body etag) = ((status == 200) ≡ false) × ((status == 304) ≡ false)

failed_fetch :
    (py_str : Value → String) (w : Written) (r : Reply) (c : GithubReleaseClient)
    → IsFailed r
    → fetch_latest_release py_str w r c ≡ (c, none)
unfolding fetch_latest_release
failed_fetch py_str w raised c h = refl
failed_fetch py_str w (answered status body etag) c h = rw (h.0, h.1) refl

broadcast-failed_at :
    (previous : Option Offer) (i : UpdateInfo)
    → (broadcast previous i).update_last_check_failed_at ≡ i.update_last_check_failed_at
broadcast-failed_at previous i =
    elim (Bool-cases (not (same_offer i.available_update previous) && i.has_webapp)) [
      | inl b ↦ rw b refl
      | inr b ↦ rw b refl
    ]

update-failed_at :
    (now : ℕ) (r : Option ReleaseInfo) (i : UpdateInfo)
    → (on_update_available now r i).update_last_check_failed_at ≡ i.update_last_check_failed_at
unfolding on_update_available
update-failed_at now none i = refl
update-failed_at now (some r) i = broadcast-failed_at i.available_update _

-- No failure is noted between the two.
abbrev pub IsQuiet : UpdateCheckScheduler → UpdateCheckScheduler → Type 0
IsQuiet s s' =
    (s'.last_check_failed_at ≡ s.last_check_failed_at)
    × (s'.info.update_last_check_failed_at ≡ s.info.update_last_check_failed_at)

module _ (py_str : Value → String) where
  unless_active-IsQuiet :
      (p : Probe) (e : Surroundings) (s : UpdateCheckScheduler)
      → IsQuiet s (unless_active py_str p s (check_once py_str e s).0)
  unfolding check_once
  unless_active-IsQuiet active e s = (refl, refl)
  unless_active-IsQuiet inactive e s = (
    refl,
    update-failed_at e.now (fetch_latest_release py_str e.written e.reply s.client).1 s.info,
  )
  unless_active-IsQuiet broken e s = (
    refl,
    update-failed_at e.now (fetch_latest_release py_str e.written e.reply s.client).1 s.info,
  )

  run-IsQuiet : (es : List Surroundings) (s : UpdateCheckScheduler) → IsQuiet s (run py_str es s)
  unfolding run run_one_iteration
  run-IsQuiet [] s = (refl, refl)
  run-IsQuiet (e ∷ es) s =
      let first = unless_active-IsQuiet e.probe e s in
      let rest = run-IsQuiet es (run_one_iteration py_str e s) in
      (rest.0 ∙ first.0, rest.1 ∙ first.1)

  -- A request that raised, or was answered with a status other than 200 and 304, counts as a check that
  -- succeeded: the scheduler and the context note its time as that of the last check, and offer what
  -- they offered; and no iterations of the loop, whatever they meet, note a failure.
  pub failed_fetch_unnoticed :
      (e : Surroundings) (s : UpdateCheckScheduler) (es : List Surroundings)
      → IsFailed e.reply
      → let s' = (check_once py_str e s).0 in
        (s'.last_check_at ≡ some e.now)
        × (s'.info.update_last_check_at ≡ some e.now)
        × (s'.info.available_update ≡ s.info.available_update)
        × IsQuiet s (run py_str es s)
  unfolding check_once on_update_available
  failed_fetch_unnoticed e s es h =
      let (quiet, also) = run-IsQuiet es s in
      rw (failed_fetch py_str e.written e.reply s.client h) (refl, refl, refl, (quiet, also))
