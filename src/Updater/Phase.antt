-- ===== src/Updater/Phase.antt =====
-- The phases of updater_root/status_writer.py, with the texts that stand for them in the file.
use pv_inverter_master.Base.{String}

pub data Phase : Type 0 where
  trigger_received backup extract pip_install_dryrun pip_install compileall smoke_import : Phase
  config_dryrun pending_marker_written symlink_flipped restarting healthcheck done : Phase
  rollback_starting rollback_symlink_flipped rollback_restarting rollback_healthcheck : Phase
  rollback_done rollback_failed : Phase

abbrev pub name : Phase → String
name trigger_received = "trigger_received"
name backup = "backup"
name extract = "extract"
name pip_install_dryrun = "pip_install_dryrun"
name pip_install = "pip_install"
name compileall = "compileall"
name smoke_import = "smoke_import"
name config_dryrun = "config_dryrun"
name pending_marker_written = "pending_marker_written"
name symlink_flipped = "symlink_flipped"
name restarting = "restarting"
name healthcheck = "healthcheck"
name done = "done"
name rollback_starting = "rollback_starting"
name rollback_symlink_flipped = "rollback_symlink_flipped"
name rollback_restarting = "rollback_restarting"
name rollback_healthcheck = "rollback_healthcheck"
name rollback_done = "rollback_done"
name rollback_failed = "rollback_failed"
