-- ===== src/Updater/Runner/Whole.antt =====
-- What a whole update attempt leaves behind, whatever the primitives do.
use pv_inverter_master.Base.{
  String, Bool, true, false, Option, if◌then◌else◌, ◌≡◌, inl, inr, refl, ◌∙◌, is_some,
}
use pv_inverter_master.Updater.Phase.{rollback_failed}
use pv_inverter_master.Updater.Exec.{
  Run, ExitCode, success, failure, rolled_back, rollback_broken, Flow, exit, raise, finalize,
}
use pv_inverter_master.Updater.Exec.Hoare.{Holds, goes_on, exits, raises, At, finalize_lem}
use pv_inverter_master.Updater.Runner.{World, handle, raise_flag, drop_flag, run}
use pv_inverter_master.Updater.Runner.Meaning.{Exits, Recoverable, Left}
use pv_inverter_master.Updater.Runner.Outcome.{body-Holds}

recoverable :
    (w : World) (old : String) (r r' : Run)
    → r'.link ≡ r.link
    → r'.marker ≡ r.marker
    → Recoverable w old r
    → Recoverable w old r'
recoverable w old r r' hl hm (inl e) = inl (hl ∙ e)
recoverable w old r r' hl hm (inr (inl e)) = inr (inl (hm ∙ e))
recoverable w old r r' hl hm (inr (inr e)) = inr (inr e)

exited :
    (w : World) (old : String) (m : Option (String × String)) (c : ExitCode) (r : Run)
    → Exits w old m c r
    → Left w old m (c, r)
unfolding Left Exits
exited w old m success r e = e
exited w old m failure r e = (e.0, inl e.1)
exited w old m rolled_back r e = e
exited w old m rollback_broken r e = e

handled :
    (w : World) (old : String) (m : Option (String × String)) (x : Flow (Unit {0}) × Run)
    → Holds (Exits w old m) (Recoverable w old) (λ _ _. ⊥) x
    → Left w old m (handle w x)
unfolding handle Left
handled w old m _ (goes_on p) = absurd p
handled w old m (exit c, r) (exits e) = exited w old m c r e
handled w old m (raise, r) (raises e) =
    let k = finalize_lem w.flushes rollback_failed r in
    (k.0, recoverable w old r (finalize w.flushes rollback_failed r).1 k.1 k.2 e)

dropped :
    (w : World) (old : String) (m : Option (String × String)) (b : Bool) (c : ExitCode) (r : Run)
    → Left w old m (c, r)
    → Left w old m (c, if b then record r { active_flag = false } else r)
unfolding Left Exits
dropped w old m false c r h = h
dropped w old m true success r h = h
dropped w old m true failure r h = h
dropped w old m true rolled_back r h = h
dropped w old m true rollback_broken r h = h

flagged :
    {s : Bool} {l : String} {m : Option (String × String)} (b : Bool) (r : Run)
    → At s l m r
    → At s l m (if b then record r { active_flag = true } else r)
flagged true r h = h
flagged false r h = h

-- `run` on a writer that was not begun, whatever the primitives answer or raise: success means that
-- the requested release runs and passed its health check; rolled back, that the old release runs and
-- passed its own; after both there is no marker if its unlink succeeded, and the marker of this attempt
-- if the unlink failed; a broken rollback leaves the marker; and after a failure, which may also be an
-- exception, the old release runs, or the marker names it, or the new release is healthy. The phase in
-- memory is done, rollback_done or rollback_failed, or there is none.
pub run_outcome :
    (w : World) (r : Run) → is_some r.status.current ≡ false → Left w r.link r.marker (run w r)
unfolding run drop_flag raise_flag
run_outcome w r h =
    dropped w _ _ w.flag_dropped _ _
      (handled w _ _ _ (body-Holds w _ _ _ (flagged w.flag_raised r (h, refl, refl))))

-- When the flag can be removed, `run` leaves no updater-active flag, on every path.
pub run_drops_flag : (w : World) (r : Run) → w.flag_dropped ≡ true → (run w r).1.active_flag ≡ false
unfolding run drop_flag
run_drops_flag w r h = rw h
