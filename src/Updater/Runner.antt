-- ===== src/Updater/Runner.antt =====
-- `UpdateRunner` of updater_root/runner.py: one update attempt. What the injected primitives do is the
-- `World`; each of them may raise. The path of the new release is a function of the SHA, as the clock
-- and the directory that `_new_release_dir` looks at are fixed in a world. A step of the installation
-- that failed carries the text that is written to the history for it. A result object without `ok`
-- counts as passed, as in the source. An OSError at the updater-active flag is only logged, and so is one
-- at the unlink of the pending marker, which then stays: `clear_pending_marker` returns all the same.
pub mod Meaning
pub mod Outcome
pub mod Whole
mod Tests
use pv_inverter_master.Base.{
  ℕ, ◌+◌, String, Bool, true, false, Option, none, some, List, [], ◌∷◌, ◌++◌, if◌then◌else◌, leb,
}
use pv_inverter_master.Updater.Phase.{
  Phase, trigger_received, backup, extract, pip_install_dryrun, pip_install, compileall,
  smoke_import, config_dryrun, pending_marker_written, symlink_flipped, restarting, healthcheck,
  done, rollback_starting, rollback_symlink_flipped, rollback_restarting, rollback_healthcheck,
  rollback_done, rollback_failed,
}
use pv_inverter_master.Updater.Texts.{is_empty}
use pv_inverter_master.Updater.Trigger.{ValidatedTrigger}
use pv_inverter_master.Updater.Exec.{
  Written, Run, ExitCode, success, failure, rolled_back, rollback_broken, Out, ret, raised, Flow,
  next, exit, raise, Step, ◌>>=◌, ◌>>◌, pure, leave, call, modify, begin, write_phase, finalize,
  resume,
}

-- What `read_trigger` gives: a trigger, or a validation error (a replay is one).
pub data TriggerRead : Type 0 where
  valid : ValidatedTrigger → TriggerRead
  refused : TriggerRead

-- A check that passed, or failed with a text.
pub data Checked : Type 0 where
  passed : Checked
  failed : String → Checked

pub record World : Type 0 where
  pub flushes : ℕ → Written
  pub flag_raised : Bool
  pub flag_dropped : Bool
  pub read_trigger : Out TriggerRead
  pub link_resolves : Bool
  pub old_sha : Out (Option String)
  pub is_sha_on_main : Out Bool
  pub disk_space : Out Checked
  pub create_backup : Out (Unit {0})
  pub new_release : String → String
  pub git_clone : Out (Unit {0})
  pub git_checkout : Out (Unit {0})
  pub create_venv : Out Bool
  pub pip_dry_run : Out Checked
  pub pip_install : Out Checked
  pub compileall : Out Checked
  pub smoke_import : Out Checked
  pub config_dryrun : Out Checked
  pub write_marker : Out (Unit {0})
  pub flip : Out (Unit {0})
  pub restart : Out Bool
  pub new_sha : Out (Option String)
  pub health : Out Checked
  pub clear_marker : Out Bool
  pub release_retention : Out (Unit {0})
  pub backup_retention : Out (Unit {0})
  pub flip_back : Out (Unit {0})
  pub restart_back : Out Bool
  pub health_back : Out Checked
  pub clear_marker_back : Out Bool

abbrev or_unknown : Option String → String
or_unknown none = "unknown"
or_unknown (some s) = if is_empty s then "unknown" else s

-- The pending marker after `clear_pending_marker`, given whether the unlink succeeded.
unfoldable pub unmark : Bool → Run → Run
unmark removed r = if removed then record r { marker = none } else r

module _ (w : World) where
  -- `status.finalize("rollback_failed")` and `return EXIT_FAILURE`.
  pub give_up : Step (Unit {0})
  give_up = finalize w.flushes rollback_failed >> leave failure

  pub checked : Phase → Checked → Step (Unit {0})
  unfolding give_up
  checked p passed = pure tt
  checked p (failed e) = write_phase w.flushes p (some e) >> give_up

  pub unless : Bool → Step (Unit {0})
  unfolding give_up
  unless true = pure tt
  unless false = give_up

  -- A step of the installation: its phase is written, then it is made.
  pub attempt : Phase → Out Checked → Step (Unit {0})
  unfolding checked
  attempt p o = do write_phase w.flushes p none; c ← call o; checked p c

  pub read_step : TriggerRead → Step ValidatedTrigger
  read_step (valid t) = pure t
  read_step refused = leave failure

  pub resolve : Step String
  resolve r = if w.link_resolves then (next r.link, r) else (exit failure, r)

  -- The steps 1 to 3: trigger, current release, ancestry, disk space. A failed fetch is only logged.
  pub preflight : Step (ValidatedTrigger × String)
  unfolding read_step resolve unless checked
  preflight = do
    answer ← call w.read_trigger
    t ← read_step answer
    old ← resolve
    sha ← call w.old_sha
    begin w.flushes t.nonce t.target_sha (or_unknown sha)
    on_main ← call w.is_sha_on_main
    unless on_main
    space ← call w.disk_space
    checked backup space
    pure (t, old)

  -- The steps 4 to 10: backup, new release, environment, installation and its checks.
  pub install : Step (Unit {0})
  unfolding attempt unless checked
  install = do
    write_phase w.flushes backup none
    call w.create_backup
    write_phase w.flushes extract none
    call w.git_clone
    call w.git_checkout
    write_phase w.flushes pip_install_dryrun none
    venv ← call w.create_venv
    unless venv
    dry ← call w.pip_dry_run
    checked pip_install_dryrun dry
    attempt pip_install w.pip_install
    attempt compileall w.compileall
    attempt smoke_import w.smoke_import
    attempt config_dryrun w.config_dryrun

  -- The rollback: `finalize("rollback_failed")` and `return EXIT_ROLLBACK_FAILED`.
  pub break_rollback : {A : Type 0} → Step A
  break_rollback = finalize w.flushes rollback_failed >> leave rollback_broken

  pub rollback_verdict : Checked → Step (Unit {0})
  unfolding break_rollback unmark
  rollback_verdict passed = do
    removed ← call w.clear_marker_back
    modify (unmark removed)
    finalize w.flushes rollback_done
    leave rolled_back
  rollback_verdict (failed e) = break_rollback

  pub after_restart_back : Bool → Step (Unit {0})
  unfolding rollback_verdict break_rollback
  after_restart_back true = do
    health ← call w.health_back
    write_phase w.flushes rollback_healthcheck none
    rollback_verdict health
  after_restart_back false = break_rollback

  -- A failure to flip back is caught.
  pub flip_back : Out (Unit {0}) → String → Step (Unit {0})
  unfolding after_restart_back break_rollback
  flip_back raised old = break_rollback
  flip_back (ret _) old = do
    modify (λ r. record r { link = old })
    write_phase w.flushes rollback_symlink_flipped none
    up ← call w.restart_back
    write_phase w.flushes rollback_restarting none
    after_restart_back up

  pub start_rollback : String → String → Step (Unit {0})
  unfolding flip_back
  start_rollback old reason = do
    write_phase w.flushes rollback_starting (some reason)
    flip_back w.flip_back old

  -- `_rollback`
  unfoldable pub rollback : String → String → Step (Unit {0})
  unfolding start_rollback break_rollback
  rollback old reason r =
      if leb 1 r.rollback_count
      then break_rollback r
      else start_rollback old reason (record r { rollback_count = r.rollback_count + 1 })

  pub verdict : Checked → String → Step (Unit {0})
  unfolding rollback unmark
  verdict passed old = do
    removed ← call w.clear_marker
    modify (unmark removed)
    call w.release_retention
    call w.backup_retention
    finalize w.flushes done
    leave success
  verdict (failed reason) old = rollback old reason

  pub after_restart : Bool → String → Step (Unit {0})
  unfolding verdict rollback
  after_restart true old = do
    write_phase w.flushes healthcheck none
    _ ← call w.new_sha
    outcome ← call w.health
    verdict outcome old
  after_restart false old = rollback old "restart_failed"

  -- The steps 11 to 14: the marker, then the flip, the restart and the health check.
  pub switch : String → String → Step (Unit {0})
  unfolding after_restart
  switch old new = do
    write_phase w.flushes pending_marker_written none
    call w.write_marker
    modify (λ r. record r { marker = some (old, new) })
    write_phase w.flushes symlink_flipped none
    call w.flip
    modify (λ r. record r { link = new })
    write_phase w.flushes restarting none
    up ← call w.restart
    after_restart up old

  -- The body of the outer `try` of `run`.
  unfoldable pub body : Step (Unit {0})
  unfolding preflight install switch
  body = do (t, old) ← preflight; install; switch old (w.new_release t.target_sha)

  -- The handler of `run`: `finalize("rollback_failed")`, whose own exception is swallowed.
  pub handle : Flow (Unit {0}) × Run → ExitCode × Run
  handle (exit c, r) = (c, r)
  handle (next _, r) = (failure, (finalize w.flushes rollback_failed r).1)
  handle (raise, r) = (failure, (finalize w.flushes rollback_failed r).1)

  pub raise_flag : Run → Run
  raise_flag r = if w.flag_raised then record r { active_flag = true } else r

  pub drop_flag : Run → Run
  drop_flag r = if w.flag_dropped then record r { active_flag = false } else r

  -- `run`, with its `finally`.
  unfoldable pub run : Run → ExitCode × Run
  unfolding handle raise_flag drop_flag
  run r = let (c, r') = handle (body (raise_flag r)) in (c, drop_flag r')
