-- ===== src/Updater/Runner/Outcome.antt =====
-- The stages of an update attempt, from the preflight to the rollback, by the rules of Exec/Hoare.
use pv_inverter_master.Base.{
  String, Bool, true, false, Option, none, some, leb, if◌then◌else◌, ◌≡◌, inl, inr, refl, sym, ap,
}
use mathlib.Core.Path.{subst}
use pv_inverter_master.Updater.Phase.{Phase, backup, done, rollback_done, rollback_failed}
use pv_inverter_master.Updater.Trigger.{ValidatedTrigger}
use pv_inverter_master.Updater.Exec.{
  Run, ExitCode, success, failure, rolled_back, rollback_broken, Out, ret, raised, Flow, exit, Step,
  ◌>>=◌, ◌>>◌, pure, leave, call, modify, write_phase, resume,
}
use pv_inverter_master.Updater.Exec.Hoare.{
  Holds, goes_on, exits, Ended, phase_of-none, At, step, then_, call-At, write_phase-At, begin-At,
  end_with,
}
use pv_inverter_master.Updater.Runner.{
  World, TriggerRead, valid, refused, Checked, passed, failed, give_up, checked, unless, attempt,
  read_step, resolve, preflight, install, break_rollback, rollback_verdict, after_restart_back,
  flip_back, start_rollback, rollback, verdict, after_restart, switch, body, unmark,
}
use pv_inverter_master.Updater.Runner.Meaning.{target_of, Exits, Recoverable, Finished}

module _ (w : World) (old : String) (m : Option (String × String)) where
  abbrev E : ExitCode → Run → Type 0
  E = Exits w old m

  abbrev R : Run → Type 0
  R = Recoverable w old

  abbrev new : String
  new = target_of w w.read_trigger

  abbrev marked : Option (String × String)
  marked = some (old, new)

  from_old : {m' : Option (String × String)} (r : Run) → r.link ≡ old → r.marker ≡ m' → R r
  from_old r hl hm = inl hl

  from_marker : {l : String} (r : Run) → r.link ≡ l → r.marker ≡ marked → R r
  from_marker r hl hm = inr (inl hm)

  either :
      {A : Type 0} {Q : A → Run → Type 0} (b : Bool) (x y : Flow A × Run)
      → Holds E R Q x
      → Holds E R Q y
      → Holds E R Q (if b then x else y)
  either true x y h k = h
  either false x y h k = k

  give_up-Holds :
      {Q : Unit {0} → Run → Type 0} (r : Run) → At true old m r → Holds E R Q (give_up w r)
  unfolding give_up Exits
  give_up-Holds r =
      end_with from_old w.flushes rollback_failed failure r (λ r' e. (inr e.0, e.1, e.2))

  checked-At :
      (p : Phase) (c : Checked) (r : Run)
      → At true old m r
      → Holds E R (λ _. At true old m) (checked w p c r)
  unfolding checked pure
  checked-At p passed r h = goes_on h
  checked-At p (failed e) r h =
      then_ _ (give_up w) r (write_phase-At from_old w.flushes p (some e) r h) give_up-Holds

  unless-At : (b : Bool) (r : Run) → At true old m r → Holds E R (λ _. At true old m) (unless w b r)
  unfolding unless pure
  unless-At true r h = goes_on h
  unless-At false r h = give_up-Holds r h

  called :
      {A B : Type 0} {Q : B → Run → Type 0} {s : Bool} (o : Out A) (k : A → Step B) (r : Run)
      → At s old m r
      → ((a : A) (r' : Run) → o ≡ ret a → At s old m r' → Holds E R Q (k a r'))
      → Holds E R Q ((call o >>= k) r)
  called o k r h f = step (call o) k r (call-At from_old o r h) (λ a r' e. f a r' e.0 e.1)

  written :
      {B : Type 0} {Q : B → Run → Type 0} {s : Bool} (p : Phase) (k : Step B) (r : Run)
      → At s old m r
      → ((r' : Run) → At s old m r' → Holds E R Q (k r'))
      → Holds E R Q ((write_phase w.flushes p none >> k) r)
  written p k r h = then_ _ k r (write_phase-At from_old w.flushes p none r h)

  attempt-At :
      (p : Phase) (o : Out Checked) (r : Run)
      → At true old m r
      → Holds E R (λ _. At true old m) (attempt w p o r)
  unfolding attempt
  attempt-At p o r h = written p _ r h (λ r h. called o _ r h (λ c r _ h. checked-At p c r h))

  done_call :
      {B : Type 0} {Q : B → Run → Type 0} (o : Out (Unit {0})) (k : Step B) (r : Run)
      → At true old m r
      → ((r' : Run) → At true old m r' → Holds E R Q (k r'))
      → Holds E R Q ((call o >> k) r)
  done_call o k r h f = then_ (call o) k r (call-At from_old o r h) (λ r' e. f r' e.1)

  install-At : (r : Run) → At true old m r → Holds E R (λ _. At true old m) (install w r)
  unfolding install
  install-At r h = written _ _ r h (λ r h. done_call _ _ r h (λ r h. written _ _ r h (λ r h.
      done_call _ _ r h (λ r h. done_call _ _ r h (λ r h. written _ _ r h (λ r h.
        called _ _ r h (λ venv r _ h. then_ _ _ r (unless-At venv r h) (λ r h.
          called _ _ r h (λ dry r _ h. then_ _ _ r (checked-At _ dry r h) (λ r h.
            then_ _ _ r (attempt-At _ _ r h) (λ r h.
              then_ _ _ r (attempt-At _ _ r h)
                (λ r h. then_ _ _ r (attempt-At _ _ r h) (λ r h. attempt-At _ _ r h)))))))))))))

  break_rollback-Holds :
      {A : Type 0} {Q : A → Run → Type 0} {l : String} (r : Run)
      → At true l marked r
      → Holds E R Q (break_rollback w r)
  unfolding break_rollback Exits
  break_rollback-Holds r =
      end_with from_marker w.flushes rollback_failed rollback_broken r (λ r' e. (e.0, e.2))

  modified :
      {B : Type 0} {Q : B → Run → Type 0} (f : Run → Run) (k : Step B) (r : Run)
      → Holds E R Q (k (f r))
      → Holds E R Q ((modify f >> k) r)
  unfolding modify ◌>>◌ ◌>>=◌ resume
  modified f k r h = h

  -- An attempt ends with the unlink of its marker, whatever the unlink gives.
  unmark-At :
      {s : Bool} {l : String} (b : Bool) (r : Run)
      → At s l marked r
      → At s l (if b then none else marked) (unmark b r)
  unfolding unmark
  unmark-At true r h = (h.0, h.1, refl)
  unmark-At false r h = h

  finished :
      {p : Phase} {l : String} {o : Out Bool} (b : Bool) (r : Run)
      → o ≡ ret b
      → Ended p l (if b then none else marked) r
      → Finished p l o marked r
  finished true r e h = (h.0, h.1, inl (e, h.2))
  finished false r e h = (h.0, h.1, inr (e, h.2))

  rollback_verdict-Holds :
      {Q : Unit {0} → Run → Type 0} (c : Checked) (r : Run)
      → w.health_back ≡ ret c
      → At true old marked r
      → Holds E R Q (rollback_verdict w c r)
  unfolding rollback_verdict Exits
  rollback_verdict-Holds passed r p h = step _ _ r (call-At from_old _ r h) (λ b r h.
      modified (unmark b) _ r (
        end_with from_old w.flushes rollback_done rolled_back _ (λ r' e. (p, finished b r' h.0 e))
          (unmark-At b r h.1)))
  rollback_verdict-Holds (failed e) r p h = break_rollback-Holds r h

  after_restart_back-Holds :
      {Q : Unit {0} → Run → Type 0} (up : Bool) (r : Run)
      → At true old marked r
      → Holds E R Q (after_restart_back w up r)
  unfolding after_restart_back
  after_restart_back-Holds true r h = step _ _ r (call-At from_old _ r h) (λ c r h.
      then_ _ _ r (write_phase-At from_old _ _ _ r h.1) (λ r h'. rollback_verdict-Holds c r h.0 h'))
  after_restart_back-Holds false r h = break_rollback-Holds r h

  flip_back-Holds :
      {Q : Unit {0} → Run → Type 0} {l : String} (o : Out (Unit {0})) (r : Run)
      → At true l marked r
      → Holds E R Q (flip_back w o old r)
  unfolding flip_back
  flip_back-Holds raised r h = break_rollback-Holds r h
  flip_back-Holds (ret _) r h = modified _ _ r (
      then_ _ _ _ (write_phase-At from_old _ _ _ _ (h.0, refl, h.2)) (λ r h.
        step _ _ r (call-At from_old _ r h) (λ up r h.
          then_ _ _ r (write_phase-At from_old _ _ _ r h.1)
            (λ r h. after_restart_back-Holds up r h))))

  rollback-Holds :
      {Q : Unit {0} → Run → Type 0} {l : String} (reason : String) (r : Run)
      → At true l marked r
      → Holds E R Q (rollback w old reason r)
  unfolding rollback start_rollback
  rollback-Holds reason r h =
      either (leb 1 r.rollback_count) _ _ (break_rollback-Holds r h)
        (then_ _ _ _ (write_phase-At from_marker _ _ _ _ h) (λ r h. flip_back-Holds _ r h))

  verdict-Holds :
      {Q : Unit {0} → Run → Type 0} (c : Checked) (r : Run)
      → w.health ≡ ret c
      → At true new marked r
      → Holds E R Q (verdict w c old r)
  unfolding verdict Exits
  verdict-Holds passed r p h = step _ _ r (call-At healthy _ r h) (λ b r g.
      modified (unmark b) _ r (
        then_ _ _ _ (call-At healthy _ _ (unmark-At b r g.1)) (λ r h.
          then_ _ _ r (call-At healthy _ r h.1) (λ r h.
            end_with healthy w.flushes done success r (λ r' e. (p, finished b r' g.0 e)) h.1))))
    where
      healthy :
          {l : String} {m' : Option (String × String)} (r : Run) → r.link ≡ l → r.marker ≡ m' → R r
      healthy r _ _ = inr (inr p)
  verdict-Holds (failed reason) r p h = rollback-Holds reason r h

  after_restart-Holds :
      {Q : Unit {0} → Run → Type 0} (up : Bool) (r : Run)
      → At true new marked r
      → Holds E R Q (after_restart w up old r)
  unfolding after_restart
  after_restart-Holds true r h = then_ _ _ r (write_phase-At from_marker _ _ _ r h) (λ r h.
      step _ _ r (call-At from_marker _ r h)
        (λ _ r h. step _ _ r (call-At from_marker _ r h.1) (λ c r h. verdict-Holds c r h.0 h.1)))
  after_restart-Holds false r h = rollback-Holds _ r h

  switch-Holds :
      {Q : Unit {0} → Run → Type 0} (r : Run) → At true old m r → Holds E R Q (switch w old new r)
  unfolding switch
  switch-Holds r h = written _ _ r h (λ r h. done_call _ _ r h (λ r h. modified _ _ r (
      then_ _ _ _ (write_phase-At from_marker _ _ _ _ (h.0, h.1, refl)) (λ r h.
        then_ _ _ r (call-At from_marker _ r h) (λ r h. modified _ _ r (
          then_ _ _ _ (write_phase-At from_marker _ _ _ _ (h.1.0, refl, h.1.2)) (λ r h.
            step _ _ r (call-At from_marker _ r h) (λ up r h. after_restart-Holds up r h.1))))))))

  -- What the preflight gives: the trigger that was read, and the current release.
  abbrev Ready : ValidatedTrigger × String → Run → Type 0
  Ready x r = (w.new_release x.0.target_sha ≡ new) × (x.1 ≡ old) × At true old m r

  left_early :
      {A : Type 0} {Q : A → Run → Type 0} (r : Run)
      → At false old m r
      → Holds E R Q (exit failure, r)
  unfolding Exits
  left_early r (h, hl, hm) = exits (inl (phase_of-none r.status.current h), hl, hm)

  read_step-Holds :
      (a : TriggerRead) (r : Run)
      → w.read_trigger ≡ ret a
      → At false old m r
      → Holds E R (λ t r'. (w.new_release t.target_sha ≡ new) × At false old m r') (read_step w a r)
  unfolding read_step target_of pure leave
  read_step-Holds (valid t) r e h = goes_on (sym (ap (target_of w) e), h)
  read_step-Holds refused r e h = left_early r h

  resolve-Holds :
      (r : Run) → At false old m r → Holds E R (λ o r'. (o ≡ old) × At false old m r') (resolve w r)
  unfolding resolve
  resolve-Holds r h = either w.link_resolves _ _ (goes_on (h.1, h)) (left_early r h)

  preflight-Holds : (r : Run) → At false old m r → Holds E R Ready (preflight w r)
  unfolding preflight pure
  preflight-Holds r h = called _ _ r h (λ a r e h. step _ _ r (read_step-Holds a r e h) (λ t r q.
      step _ _ r (resolve-Holds r q.1) (λ o r h0.
        step _ _ r (call-At from_old _ r h0.1) (λ sha r h1.
          then_ _ _ r (begin-At from_old _ _ _ _ r h1.1) (λ r h2. called _ _ r h2 (λ on_main r _ h3.
            then_ _ _ r (unless-At on_main r h3) (λ r h4. called _ _ r h4 (λ space r _ h5.
              then_ _ _ r (checked-At backup space r h5) (λ r h6. goes_on (q.0, h0.0, h6))))))))))

  -- The body of `run` on a writer that was not begun never falls through. It returns with an exit
  -- code: success with the requested release healthy and running, in phase done; failure
  -- with release and marker as they were; rolled back with the old release healthy and running; in both the
  -- marker is there exactly if its unlink failed; a broken
  -- rollback with the marker in place. Or it raises, and then the old release runs, or the marker
  -- names it, or the new release is healthy.
  pub body-Holds : (r : Run) → At false old m r → Holds E R (λ _ _. ⊥) (body w r)
  unfolding body
  body-Holds r h = step _ _ r (preflight-Holds r h) (λ x r h.
      then_ _ _ r (install-At r h.2) (λ r h'.
        subst (λ o. Holds E R (λ _ _. ⊥) (switch w o (w.new_release x.0.target_sha) r)) (sym h.1)
          (subst (λ n. Holds E R (λ _ _. ⊥) (switch w old n r)) (sym h.0) (switch-Holds r h'))))
