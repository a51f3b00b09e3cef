-- ===== src/Recovery/Tests.antt =====
-- The theorems of the boot-time recovery at a concrete boot.
use pv_inverter_master.Base.{◌≡◌, refl, true, false, some, str_eq}
use pv_inverter_master.Json.{fraction}
use pv_inverter_master.Updater.Texts.{strip_prefix}
use pv_inverter_master.Recovery.{is_stale, Boot, at, rolled_back, recover_if_needed}
use pv_inverter_master.Recovery.Rollback.{
  Explained, interrupted, without_marker, recover_if_needed-Explained, interrupted_update_recovers,
  failed_unlink_repeats,
}

abbrev boot : Boot
boot = record {
  updater_active = false;
  last_success = at (some 500);
  is_after = λ t v. false;
  is_dir = λ path. str_eq path "/opt/releases/old";
  flip_works = true;
  unlink_works = true;
}

recover_if_needed-Explained_example :
    Explained boot
      (without_marker "/opt/releases/new")
      (recover_if_needed boot (without_marker "/opt/releases/new")).0
      (recover_if_needed boot (without_marker "/opt/releases/new")).1
recover_if_needed-Explained_example =
    recover_if_needed-Explained boot (without_marker "/opt/releases/new")

interrupted_update_recovers_example :
    recover_if_needed boot
      (interrupted "/opt/releases/new" "/opt/releases/old" "/opt/releases/new" "update" fraction)
    ≡ (rolled_back, without_marker "/opt/releases/old")
unfolding strip_prefix is_stale
interrupted_update_recovers_example =
    (interrupted_update_recovers boot boot "/opt/releases/new" "/opt/releases/old"
      "/opt/releases/new" "update" fraction refl refl refl refl refl refl refl refl).0

abbrev stuck_boot : Boot
stuck_boot = record boot { unlink_works = false }

failed_unlink_repeats_example :
    recover_if_needed stuck_boot
      (interrupted "/opt/releases/new" "/opt/releases/old" "/opt/releases/new" "update" fraction)
    ≡ (
      rolled_back,
      interrupted "/opt/releases/old" "/opt/releases/old" "/opt/releases/new" "update" fraction,
    )
unfolding strip_prefix is_stale
failed_unlink_repeats_example =
    (failed_unlink_repeats stuck_boot "/opt/releases/new" "/opt/releases/old" "/opt/releases/new"
      "update" fraction refl refl refl refl refl refl refl refl).0
