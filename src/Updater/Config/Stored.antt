-- ===== src/Updater/Config/Stored.antt =====
-- The stored update settings are loaded again.
use pv_inverter_master.Base.{
  ℕ, zero, suc, ◌<◌, ◌≡◌, refl, ap, ◌∙◌, String, Bool, true, false, Option, some, Bool-cases, inl,
  inr, str_eq, if◌then◌else◌, pos, arith,
}
use pv_inverter_master.Json.{
  Value, null, boolean, integer, text, object, array, fraction, Fields, get, has_key, get-put,
}
use pv_inverter_master.Updater.Config.{
  UpdateConfig, default_update_config, YamlFile, is_blank, repo_of, hours_of, or_else,
  coerce_section, top_level, load_update_config, section_of, save_update_config, merge,
}

abbrev config : String → ℕ → Bool → UpdateConfig
config repo hours install = record {
  github_repo = repo;
  check_interval_hours = hours;
  auto_install = install;
}

repo_of-text : (s : String) → is_blank s ≡ false → repo_of (text s) ≡ some s
repo_of-text s h = rw h refl

-- A repository with a character that is no space, and a positive interval.
pub record IsValid (c : UpdateConfig) : Type 0 where
  pub named : is_blank c.github_repo ≡ false
  pub positive : 0 < c.check_interval_hours

or_else-named :
    (d : String) (v : Value) → is_blank d ≡ false → is_blank (or_else d (repo_of v)) ≡ false
or_else-named d (text s) h = elim (Bool-cases (is_blank s)) [
  | inl blank ↦ rw blank h
  | inr full ↦ rw full full
]
or_else-named d _ h = h

or_else-positive : (d : ℕ) (v : Value) → 0 < d → 0 < or_else d (hours_of v)
or_else-positive d (integer (pos zero)) h = h
or_else-positive d (integer (pos (suc n))) h = omega arith
or_else-positive d _ h = h

coerce_section-IsValid : (v : Value) → IsValid (coerce_section v)
unfolding coerce_section
coerce_section-IsValid (object fs) = record {
  named = or_else-named default_update_config.github_repo (get "github_repo" fs) refl;
  positive = or_else-positive 24 (get "check_interval_hours" fs) (omega arith);
}
coerce_section-IsValid null = record { named = refl; positive = omega arith }
coerce_section-IsValid (boolean b) = record { named = refl; positive = omega arith }
coerce_section-IsValid (integer z) = record { named = refl; positive = omega arith }
coerce_section-IsValid fraction = record { named = refl; positive = omega arith }
coerce_section-IsValid (text t) = record { named = refl; positive = omega arith }
coerce_section-IsValid (array xs) = record { named = refl; positive = omega arith }

hours_of-pos : (n : ℕ) → 0 < n → hours_of (integer (pos n)) ≡ some n
hours_of-pos zero h = elim h [ ]
hours_of-pos (suc n) h = refl

section-loaded : (c : UpdateConfig) → IsValid c → coerce_section (section_of c) ≡ c
unfolding coerce_section get
section-loaded c h =
    let made = λ (r : Option String) (n : Option ℕ).
      config (or_else default_update_config.github_repo r) (or_else 24 n) c.auto_install in
    ap (λ r. made r (hours_of (integer (pos c.check_interval_hours))))
      (repo_of-text c.github_repo h.named)
    ∙ ap (made (some c.github_repo)) (hours_of-pos c.check_interval_hours h.positive)

-- What was saved is loaded, and the other sections are what they were.
pub save-load :
    (c : UpdateConfig) (f : YamlFile)
    → IsValid c
    → load_update_config (save_update_config true c f) ≡ c
unfolding load_update_config save_update_config
save-load c f h =
    ap coerce_section (get-put "update" "update" (section_of c) (top_level f)) ∙ section-loaded c h

pub save-others :
    (c : UpdateConfig) (f : YamlFile) (k : String)
    → str_eq "update" k ≡ false
    → get k (top_level (save_update_config true c f)) ≡ get k (top_level f)
unfolding save_update_config
save-others c f k other = get-put "update" k (section_of c) (top_level f) ∙ rw other refl

pub merge-IsValid : (fs : Fields) (c : UpdateConfig) → IsValid c → IsValid (merge fs c)
unfolding merge
merge-IsValid fs c h = record {
  named = named (has_key "github_repo" fs);
  positive = positive (has_key "check_interval_hours" fs);
}
  where
    named :
        (b : Bool)
        → is_blank
            (if b then or_else c.github_repo (repo_of (get "github_repo" fs)) else c.github_repo)
          ≡ false
    named true = or_else-named c.github_repo (get "github_repo" fs) h.named
    named false = h.named

    positive :
        (b : Bool)
        → 0 < (
            if b
            then or_else c.check_interval_hours (hours_of (get "check_interval_hours" fs))
            else c.check_interval_hours)
    positive true =
        or_else-positive c.check_interval_hours (get "check_interval_hours" fs) h.positive
    positive false = h.positive

-- Whatever the file holds, what is loaded is valid.
pub load_update_config-IsValid : (f : YamlFile) → IsValid (load_update_config f)
unfolding load_update_config
load_update_config-IsValid f = coerce_section-IsValid (get "update" (top_level f))
