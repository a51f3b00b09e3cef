-- ===== src/Updater/Config.antt =====
-- updater/config.py, the `update` section of the configuration file, and `update_config_patch_handler` of
-- webapp.py. YAML values are those of `Json`; how a write ends is an input.
pub mod Stored
pub mod Patched
mod Tests
use pv_inverter_master.Base.{
  ℕ, zero, suc, String, Bool, true, false, not, ◌&&◌, ◌||◌, Option, none, some, List, [], ◌∷◌,
  str_eq, if◌then◌else◌, pos, is_some,
}
use pv_inverter_master.Json.{
  Value, null, boolean, integer, text, object, Fields, end, field, get, has_key, put, truthy,
}
use pv_inverter_master.Sunspec.{codes}
use pv_inverter_master.Updater.Version.{is_space}

pub record UpdateConfig : Type 0 where
  pub github_repo : String
  pub check_interval_hours : ℕ
  pub auto_install : Bool

abbrev pub default_update_config : UpdateConfig
default_update_config = record {
  github_repo = "hulki/pv-inverter-proxy";
  check_interval_hours = 24;
  auto_install = false;
}

-- A file that is not there, one that cannot be read or parsed, and one with a document.
pub data YamlFile : Type 0 where
  missing broken : YamlFile
  parsed : Value → YamlFile

abbrev pub all_space : List ℕ → Bool
all_space [] = true
all_space (c ∷ cs) = is_space c && all_space cs

-- `not s.strip()`
abbrev pub is_blank : String → Bool
is_blank s = all_space (codes s)

-- What of a value is taken for each field: none for garbage.
abbrev pub repo_of : Value → Option String
repo_of (text s) = if is_blank s then none else some s
repo_of _ = none

abbrev pub hours_of : Value → Option ℕ
hours_of (integer (pos (suc n))) = some (suc n)
hours_of _ = none

abbrev pub install_of : Value → Option Bool
install_of (boolean b) = some b
install_of _ = none

abbrev pub or_else {ℓ} : {A : Type ℓ} → A → Option A → A
or_else d none = d
or_else d (some x) = x

-- `UpdateConfig(**_coerce_loaded_section(section))`
unfoldable pub coerce_section : Value → UpdateConfig
coerce_section (object fs) = record {
  github_repo = or_else default_update_config.github_repo (repo_of (get "github_repo" fs));
  check_interval_hours =
      or_else default_update_config.check_interval_hours (hours_of (get "check_interval_hours" fs));
  auto_install = or_else default_update_config.auto_install (install_of (get "auto_install" fs));
}
coerce_section _ = default_update_config

-- `yaml.safe_load(f) or {}`, where a document that is no dict counts as an empty one, as both readers
-- treat it.
abbrev pub top_level : YamlFile → Fields
top_level (parsed (object fs)) = fs
top_level _ = end

unfoldable pub load_update_config : YamlFile → UpdateConfig
unfolding coerce_section
load_update_config f = coerce_section (get "update" (top_level f))

abbrev pub section_of : UpdateConfig → Value
section_of c = object (
    field "github_repo" (text c.github_repo) (
      field "check_interval_hours" (integer (pos c.check_interval_hours))
        (field "auto_install" (boolean c.auto_install) end)))

-- `save_update_config`, given whether the write succeeds; a failed one leaves the file and raises.
unfoldable pub save_update_config : Bool → UpdateConfig → YamlFile → YamlFile
save_update_config true c f = parsed (object (put "update" (section_of c) (top_level f)))
save_update_config false c f = f

abbrev is_allowed_key : String → Bool
is_allowed_key k =
    str_eq k "github_repo" || str_eq k "check_interval_hours" || str_eq k "auto_install"

pub only_allowed : Fields → Bool
only_allowed end = true
only_allowed (field k v fs) = is_allowed_key k && only_allowed fs

pub data PatchError : Type 0 where
  patch_must_be_object unknown_keys github_repo_must_be_nonempty_string : PatchError
  check_interval_hours_must_be_positive_int auto_install_must_be_bool : PatchError

abbrev pub given {ℓ} : {A : Type ℓ} → (Value → Option A) → String → Fields → Bool
given read key fs = not (has_key key fs) || is_some (read (get key fs))

-- `validate_update_config_patch`
unfoldable pub validate_update_config_patch : Value → Option PatchError
unfolding only_allowed
validate_update_config_patch (object fs) =
    if not (only_allowed fs)
    then some unknown_keys
    else if not (given repo_of "github_repo" fs)
    then some github_repo_must_be_nonempty_string
    else if not (given hours_of "check_interval_hours" fs)
    then some check_interval_hours_must_be_positive_int
    else if not (given install_of "auto_install" fs)
    then some auto_install_must_be_bool
    else none
validate_update_config_patch _ = some patch_must_be_object

-- `patch.get(key, current)`, of a patch that was validated.
abbrev pub patched {ℓ} : {A : Type ℓ} → (Value → Option A) → String → Fields → A → A
patched read key fs current =
    if has_key key fs then or_else current (read (get key fs)) else current

pub merge : Fields → UpdateConfig → UpdateConfig
merge fs c = record {
  github_repo = patched repo_of "github_repo" fs c.github_repo;
  check_interval_hours = patched hours_of "check_interval_hours" fs c.check_interval_hours;
  auto_install = patched install_of "auto_install" fs c.auto_install;
}

-- 400, 422, 500 and 200.
pub data PatchAnswer : Type 0 where
  invalid_json save_failed : PatchAnswer
  validation_failed : PatchError → PatchAnswer
  merged : UpdateConfig → PatchAnswer

abbrev pub fields_of : Value → Fields
fields_of (object fs) = fs
fields_of _ = end

pub store : Bool → UpdateConfig → YamlFile → YamlFile × PatchAnswer
store true c f = (save_update_config true c f, merged c)
store false c f = (save_update_config false c f, save_failed)

pub apply_patch : Option PatchError → Bool → Fields → YamlFile → YamlFile × PatchAnswer
unfolding store merge
apply_patch (some e) writable fs f = (f, validation_failed e)
apply_patch none writable fs f = store writable (merge fs (load_update_config f)) f

-- `update_config_patch_handler`; none is a body that is no JSON.
unfoldable pub update_config_patch_handler : Bool → Option Value → YamlFile → YamlFile × PatchAnswer
unfolding apply_patch
update_config_patch_handler writable none f = (f, invalid_json)
update_config_patch_handler writable (some v) f =
    apply_patch (validate_update_config_patch v) writable (fields_of v) f
