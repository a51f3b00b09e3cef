-- ===== src/Updater/Runner/Tests.antt =====
-- The theorems of the update attempt at a world where everything succeeds, and at one whose health
-- check fails.
use pv_inverter_master.Base.{true, false, none, some, [], ◌≡◌, refl}
use pv_inverter_master.Updater.Trigger.{ValidatedTrigger, update}
use pv_inverter_master.Updater.Exec.{written, Run, ret}
use pv_inverter_master.Updater.Exec.Hoare.{Holds}
use pv_inverter_master.Updater.Runner.{World, valid, passed, failed, body, run}
use pv_inverter_master.Updater.Runner.Meaning.{Exits, Recoverable, Left}
use pv_inverter_master.Updater.Runner.Outcome.{body-Holds}
use pv_inverter_master.Updater.Runner.Whole.{run_outcome, run_drops_flag}

abbrev trigger : ValidatedTrigger
trigger = record {
  op = update;
  target_sha = "0123456789abcdef0123456789abcdef01234567";
  requested_at = "2025-01-01T00:00:00Z";
  requested_by = "webapp";
  nonce = "n1";
}

abbrev sunny : World
sunny = record {
  flushes = λ n. written;
  flag_raised = true;
  flag_dropped = true;
  read_trigger = ret (valid trigger);
  link_resolves = true;
  old_sha = ret (some "abc");
  is_sha_on_main = ret true;
  disk_space = ret passed;
  create_backup = ret tt;
  new_release = λ sha. "release-new";
  git_clone = ret tt;
  git_checkout = ret tt;
  create_venv = ret true;
  pip_dry_run = ret passed;
  pip_install = ret passed;
  compileall = ret passed;
  smoke_import = ret passed;
  config_dryrun = ret passed;
  write_marker = ret tt;
  flip = ret tt;
  restart = ret true;
  new_sha = ret (some "def");
  health = ret passed;
  clear_marker = ret true;
  release_retention = ret tt;
  backup_retention = ret tt;
  flip_back = ret tt;
  restart_back = ret true;
  health_back = ret passed;
  clear_marker_back = ret false;
}

abbrev sick : World
sick = record sunny { health = ret (failed "version mismatch") }

abbrev fresh : Run
fresh = record {
  status = record { current = none; history = [] };
  status_file = none;
  flushes = 0;
  link = "release-old";
  marker = none;
  active_flag = false;
  rollback_count = 0;
}

body-Holds_example :
    Holds
      (Exits sunny "release-old" none)
      (Recoverable sunny "release-old")
      (λ _ _. ⊥)
      (body sunny fresh)
body-Holds_example = body-Holds sunny "release-old" none fresh (refl, refl, refl)

run_outcome_example : Left sick "release-old" none (run sick fresh)
run_outcome_example = run_outcome sick fresh refl

run_drops_flag_example : (run sick fresh).1.active_flag ≡ false
run_drops_flag_example = run_drops_flag sick fresh refl
