-- ===== src/Updater/Config/Patched.antt =====
-- A patch of the update settings.
use pv_inverter_master.Base.{
  ℕ, zero, suc, ◌≡◌, refl, String, Bool, true, false, Option, none, some, Bool-cases, inl, inr,
  str_eq, pos, arith, negsuc, is_some, ◌⊎◌,
}
use pv_inverter_master.Json.{
  Value, null, boolean, integer, text, object, array, fraction, Fields, end, get, has_key, put,
}
use pv_inverter_master.Updater.Config.{
  YamlFile, missing, broken, parsed, UpdateConfig, save_update_config, section_of, is_blank,
  repo_of, hours_of, install_of, or_else, top_level, load_update_config,
  validate_update_config_patch, patched, merge, merged, store, apply_patch,
  update_config_patch_handler, given,
}
use pv_inverter_master.Updater.Config.Stored.{
  save-load, save-others, merge-IsValid, load_update_config-IsValid,
}

-- A key that the patch has is taken from it, and another keeps its value.
abbrev pub IsTaken {ℓ} : {A : Type ℓ} → (A → Value) → String → Fields → A → A → Type ℓ
IsTaken write key fs old new =
    (has_key key fs ≡ true → get key fs ≡ write new) × (has_key key fs ≡ false → new ≡ old)

taken {ℓ} :
    {A : Type ℓ} (read : Value → Option A) (write : A → Value) (key : String) (fs : Fields)
    (old : A)
    → ((v : Value) (a : A) → read v ≡ some a → v ≡ write a)
    → given read key fs ≡ true
    → IsTaken write key fs old (patched read key fs old)
taken {A = A} read write key fs old inverse ok = (there, λ h. rw h refl)
  where
    from :
        (o : Option A)
        → read (get key fs) ≡ o
        → is_some o ≡ true
        → get key fs ≡ write (or_else old o)
    from none e h = absurd (cc)
    from (some a) e h = inverse (get key fs) a e

    there : has_key key fs ≡ true → get key fs ≡ write (patched read key fs old)
    there h = rw h (from (read (get key fs)) refl (rw h at ok))

repo_of-inverse : (v : Value) (s : String) → repo_of v ≡ some s → v ≡ text s
repo_of-inverse (text t) s h = elim (Bool-cases (is_blank t)) [
  | inl blank ↦ absurd (blank_text (rw blank at h))
  | inr full ↦ same_text (rw full at h)
]
  where
    blank_text : ◌≡◌ {A = Option String} none (some s) → ⊥
    blank_text e = cc

    same_text : ◌≡◌ {A = Option String} (some t) (some s) → text t ≡ text s
    same_text e = cc
repo_of-inverse null s h = absurd (cc)
repo_of-inverse (boolean b) s h = absurd (cc)
repo_of-inverse (integer z) s h = absurd (cc)
repo_of-inverse fraction s h = absurd (cc)
repo_of-inverse (array xs) s h = absurd (cc)
repo_of-inverse (object fs) s h = absurd (cc)

hours_of-inverse : (v : Value) (n : ℕ) → hours_of v ≡ some n → v ≡ integer (pos n)
hours_of-inverse (integer (pos (suc m))) n h = cc
hours_of-inverse (integer (pos zero)) n h = absurd (cc)
hours_of-inverse (integer (negsuc m)) n h = absurd (cc)
hours_of-inverse null s h = absurd (cc)
hours_of-inverse (boolean b) s h = absurd (cc)
hours_of-inverse (text z) s h = absurd (cc)
hours_of-inverse fraction s h = absurd (cc)
hours_of-inverse (array xs) s h = absurd (cc)
hours_of-inverse (object fs) s h = absurd (cc)

install_of-inverse : (v : Value) (b : Bool) → install_of v ≡ some b → v ≡ boolean b
install_of-inverse (boolean c) b h = cc
install_of-inverse null s h = absurd (cc)
install_of-inverse (integer z) s h = absurd (cc)
install_of-inverse (text z) s h = absurd (cc)
install_of-inverse fraction s h = absurd (cc)
install_of-inverse (array xs) s h = absurd (cc)
install_of-inverse (object fs) s h = absurd (cc)

valid_given :
    (fs : Fields)
    → validate_update_config_patch (object fs) ≡ none
    → (given repo_of "github_repo" fs ≡ true)
      × (given hours_of "check_interval_hours" fs ≡ true)
      × (given install_of "auto_install" fs ≡ true)
unfolding validate_update_config_patch
valid_given fs h = (ground arith, ground arith, ground arith)

-- The sections beside `update` of a new file: those of the old one, if it held a dict; none otherwise.
unfoldable pub Others : YamlFile → YamlFile → Type 0
Others (parsed (object old)) new =
    (k : String) → (str_eq "update" k ≡ true) ⊎ (get k (top_level new) ≡ get k old)
Others _ new = (k : String) → (str_eq "update" k ≡ true) ⊎ (has_key k (top_level new) ≡ false)

alone :
    (v : Value) (k : String) → (str_eq "update" k ≡ true) ⊎ (has_key k (put "update" v end) ≡ false)
unfolding put has_key
alone v k = elim (Bool-cases (str_eq "update" k)) [
  | inl update ↦ inl update
  | inr other ↦ inr (rw other refl)
]

save-Others : (c : UpdateConfig) (f : YamlFile) → Others f (save_update_config true c f)
unfolding Others save_update_config
save-Others c (parsed (object old)) = λ k. elim (Bool-cases (str_eq "update" k)) [
  | inl update ↦ inl update
  | inr other ↦ inr (save-others c (parsed (object old)) k other)
]
save-Others c missing = alone (section_of c)
save-Others c broken = alone (section_of c)
save-Others c (parsed null) = alone (section_of c)
save-Others c (parsed (boolean b)) = alone (section_of c)
save-Others c (parsed (integer z)) = alone (section_of c)
save-Others c (parsed fraction) = alone (section_of c)
save-Others c (parsed (text t)) = alone (section_of c)
save-Others c (parsed (array xs)) = alone (section_of c)

-- A valid patch whose write succeeds is answered with the settings that the file holds from then on:
-- each key of the patch has its value, and each other setting the one that was loaded before. If the
-- file held a dict, its other sections are as they were; if it was missing, could not be parsed, or
-- held another value, the new file has no other section.
pub patch_loads :
    (fs : Fields) (f : YamlFile)
    → validate_update_config_patch (object fs) ≡ none
    → let (f', a) = update_config_patch_handler true (some (object fs)) f in
      let old = load_update_config f in
      let new = load_update_config f' in
      (a ≡ merged new)
      × IsTaken text "github_repo" fs old.github_repo new.github_repo
      × IsTaken
          (λ n. integer (pos n))
          "check_interval_hours"
          fs
          old.check_interval_hours
          new.check_interval_hours
      × IsTaken boolean "auto_install" fs old.auto_install new.auto_install
      × Others f f'
unfolding update_config_patch_handler apply_patch store
patch_loads fs f h =
    let old = load_update_config f in
    let new = merge fs old in
    let loaded = save-load new f (merge-IsValid fs old (load_update_config-IsValid f)) in
    let (repo, hours, install) = valid_given fs h in
    rw (h, loaded)
      (
        refl,
        taken repo_of text "github_repo" fs old.github_repo repo_of-inverse repo,
        taken hours_of (λ n. integer (pos n)) "check_interval_hours" fs old.check_interval_hours
            hours_of-inverse hours,
        taken install_of boolean "auto_install" fs old.auto_install install_of-inverse install,
        save-Others new f,
      )
