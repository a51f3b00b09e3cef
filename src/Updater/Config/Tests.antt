-- ===== src/Updater/Config/Tests.antt =====
-- The theorem of the update settings at a concrete file and patch.
use pv_inverter_master.Base.{◌≡◌, refl, true, some, pos}
use pv_inverter_master.Json.{text, integer, boolean, object, Fields, end, field, get, has_key}
use pv_inverter_master.Updater.Config.{
  YamlFile, parsed, load_update_config, validate_update_config_patch, update_config_patch_handler,
  merged,
}
use pv_inverter_master.Updater.Config.Patched.{IsTaken, Others, patch_loads}

abbrev file : YamlFile
file = parsed (object (field "log_level" (text "INFO") (field "update" (text "garbage") end)))

abbrev patch : Fields
patch = field "auto_install" (boolean true) end

patch_loads_example :
    let (f', a) = update_config_patch_handler true (some (object patch)) file in
    let old = load_update_config file in
    let new = load_update_config f' in
    (a ≡ merged new)
    × IsTaken text "github_repo" patch old.github_repo new.github_repo
    × IsTaken
        (λ n. integer (pos n))
        "check_interval_hours"
        patch
        old.check_interval_hours
        new.check_interval_hours
    × IsTaken boolean "auto_install" patch old.auto_install new.auto_install
    × Others file f'
unfolding validate_update_config_patch has_key get
patch_loads_example = patch_loads patch file refl
