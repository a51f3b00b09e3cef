-- ===== src/Webapp/Update/Check/Blind.antt =====
-- What a check tells the client.
use mathlib.Core.Path.{subst}
use pv_inverter_master.Base.{
  ℕ, ◌≡◌, refl, sym, String, Bool, true, false, Option, none, some, lookup,
}
use pv_inverter_master.Json.{Value, null}
use pv_inverter_master.Updater.Github.{ReleaseInfo}
use pv_inverter_master.Updater.RateLimit.{RateLimiter, check}
use pv_inverter_master.Updater.Scheduler.{UpdateCheckScheduler, Surroundings, check_once}
use pv_inverter_master.Webapp.Update.Check.{
  Checked, checked, CheckSite, getattr, answer_check, with_scheduler, admit, update_check_handler,
}

answer_check-blind : (r : Option ReleaseInfo) → answer_check r ≡ checked false null
unfolding answer_check getattr lookup
answer_check-blind none = refl
answer_check-blind (some r) = refl

abbrev pub IsBlind :
    (Value → String) → Surroundings → UpdateCheckScheduler → CheckSite × Checked → Type 0
IsBlind py_str e u (s', answer) =
    (s'.scheduler ≡ some (check_once py_str e u).0) × (answer ≡ checked false null)

module _ (py_str : Value → String) where
  with_scheduler-IsBlind :
      (e : Surroundings) (u : UpdateCheckScheduler) (o : Option UpdateCheckScheduler)
      (t : CheckSite)
      → o ≡ some u
      → IsBlind py_str e u (with_scheduler py_str e o t)
  unfolding with_scheduler
  with_scheduler-IsBlind e u o t h =
      subst (λ o. IsBlind py_str e u (with_scheduler py_str e o t)) (sym h)
        (refl, answer_check-blind (check_once py_str e u).1)

  admit-IsBlind :
      (c : (Bool × ℕ) × RateLimiter) (auditable : Bool) (remote : Option String) (e : Surroundings)
      (s : CheckSite) (u : UpdateCheckScheduler)
      → c.0.0 ≡ true
      → s.scheduler ≡ some u
      → IsBlind py_str e u (admit py_str c auditable remote e s)
  unfolding admit
  admit-IsBlind ((true, n), l) auditable remote e s u h running =
      with_scheduler-IsBlind e u s.scheduler (record s { limiter = l }) running
  admit-IsBlind ((false, n), l) auditable remote e s u h running = absurd (cc)

  -- A check that the limiter admits runs the scheduler's check, so that a newer release is offered, and
  -- answers whatever it found that no update is available and no version is known.
  pub check_answers_nothing :
      (mono : ℕ) (auditable : Bool) (remote : Option String) (e : Surroundings) (s : CheckSite)
      (u : UpdateCheckScheduler)
      → (check mono remote s.limiter).0.0 ≡ true
      → s.scheduler ≡ some u
      → IsBlind py_str e u (update_check_handler py_str mono auditable remote e s)
  unfolding update_check_handler
  check_answers_nothing mono auditable remote e s u ok running =
      admit-IsBlind (check mono remote s.limiter) auditable remote e s u ok running
