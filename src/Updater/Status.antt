-- ===== src/Updater/Status.antt =====
-- updater/status.py, the defensive reader of update-status.json, and `is_update_running` of
-- updater/security.py.
use pv_inverter_master.Base.{
  ◌≡◌, refl, inl, inr, String, Bool, true, false, not, ◌||◌, Option, none, some, List, [], ◌∷◌,
  str_eq, if◌then◌else◌, arith, ◌∙◌, Bool-cases,
}
use pv_inverter_master.Json.{
  Value, null, boolean, integer, fraction, text, array, object, Items, nil, cons, Fields, get,
  is_one,
}
use pv_inverter_master.Updater.Texts.{is_empty}

-- What a read of the file gives: `missing`, an OSError, a UnicodeDecodeError, an empty text, a
-- JSONDecodeError, or a value.
pub data FileText : Type 0 where
  missing unreadable undecodable empty corrupt : FileText
  json : Value → FileText

-- The history is what is kept of it: its entries that are objects.
pub record UpdateStatus : Type 0 where
  pub current : Option Fields
  pub history : List Fields

abbrev pub idle_status : UpdateStatus
idle_status = record { current = none; history = [] }

keep_objects : Items → List Fields
keep_objects nil = []
keep_objects (cons (object fs) xs) = fs ∷ keep_objects xs
keep_objects (cons _ xs) = keep_objects xs

-- A history that is missing or no list counts as empty.
history_of : Value → List Fields
unfolding keep_objects
history_of (array xs) = keep_objects xs
history_of _ = []

with_current : Value → Value → UpdateStatus
unfolding history_of
with_current null h = record { current = none; history = history_of h }
with_current (object fs) h = record { current = some fs; history = history_of h }
with_current _ h = idle_status

load_value : Value → UpdateStatus
unfolding with_current
load_value (object fs) =
    if is_one (get "schema_version" fs)
    then with_current (get "current" fs) (get "history" fs)
    else idle_status
load_value _ = idle_status

unfoldable pub load_status : FileText → UpdateStatus
unfolding load_value
load_status (json v) = load_value v
load_status _ = idle_status

phase_text : Value → String
phase_text (text s) = if is_empty s then "idle" else s
phase_text _ = "idle"

phase_of : Option Fields → String
unfolding phase_text
phase_of none = "idle"
phase_of (some fs) = phase_text (get "phase" fs)

unfoldable pub current_phase : UpdateStatus → String
unfolding phase_of
current_phase s = phase_of s.current

-- `phase in IDLE_PHASES`
abbrev pub is_idle : String → Bool
is_idle p =
    str_eq p "idle" || str_eq p "done" || str_eq p "rollback_done" || str_eq p "rollback_failed"

-- `is_update_running`; `load_status` never raises, so its handler is not reached.
unfoldable pub is_update_running : FileText → Bool × String
unfolding load_status current_phase
is_update_running f = let phase = current_phase (load_status f) in (not (is_idle phase), phase)

busy_text :
    (v : Value)
    → not (is_idle (phase_text v)) ≡ true
    → (p : String) × (v ≡ text p) × (is_idle p ≡ false) × (phase_text v ≡ p)
unfolding phase_text
busy_text (text s) h = elim (Bool-cases (is_empty s)) [
  | inl blank ↦ absurd (idle_text s blank h)
  | inr named ↦ (s, refl, busy_named s named h, rw named)
]
  where
    idle_text :
        (s : String)
        → is_empty s ≡ true
        → not (is_idle (if is_empty s then "idle" else s)) ≡ true
        → ⊥
    idle_text s blank = rw blank (λ k. cc)

    busy_named :
        (s : String)
        → is_empty s ≡ false
        → not (is_idle (if is_empty s then "idle" else s)) ≡ true
        → is_idle s ≡ false
    busy_named s named = rw named (λ k. ground arith)
busy_text null h = absurd (cc)
busy_text (boolean b) h = absurd (cc)
busy_text (integer z) h = absurd (cc)
busy_text fraction h = absurd (cc)
busy_text (array xs) h = absurd (cc)
busy_text (object fs) h = absurd (cc)

busy_current :
    (v hist : Value)
    → not (is_idle (current_phase (with_current v hist))) ≡ true
    → (cur : Fields) × (v ≡ object cur)
      × (current_phase (with_current v hist) ≡ phase_text (get "phase" cur))
unfolding current_phase with_current
busy_current (object fs) hist h = (fs, refl, refl)
busy_current null hist h = absurd (cc)
busy_current (boolean b) hist h = absurd (cc)
busy_current (integer z) hist h = absurd (cc)
busy_current fraction hist h = absurd (cc)
busy_current (text t) hist h = absurd (cc)
busy_current (array xs) hist h = absurd (cc)

-- An update counts as running only on the word of a readable file: an object of schema 1 whose current
-- record names a phase outside the idle ones; and then it is that phase which is reported.
pub running_needs_record :
    (f : FileText)
    → (is_update_running f).0 ≡ true
    → (fs : Fields) × (cur : Fields) × (p : String) × (f ≡ json (object fs))
      × (is_one (get "schema_version" fs) ≡ true)
      × (get "current" fs ≡ object cur)
      × (get "phase" cur ≡ text p)
      × (is_idle p ≡ false)
      × ((is_update_running f).1 ≡ p)
unfolding is_update_running
running_needs_record (json (object fs)) h = elim (Bool-cases (is_one (get "schema_version" fs))) [
  | inl known ↦
      let shown : not (is_idle (current_phase (with_current (get "current" fs) (get "history" fs))))
          ≡ true =
        rw known at h in
      let (cur, ec, ep) = busy_current (get "current" fs) (get "history" fs) shown in
      let (p, et, idle, same) = busy_text (get "phase" cur) (rw ep at shown) in
      (fs, cur, p, refl, known, ec, et, idle, rw known (ep ∙ same))
  | inr foreign ↦ absurd (unknown (rw foreign at h))
]
  where
    unknown : false ≡ true → ⊥
    unknown e = cc
running_needs_record missing h = absurd (cc)
running_needs_record unreadable h = absurd (cc)
running_needs_record undecodable h = absurd (cc)
running_needs_record empty h = absurd (cc)
running_needs_record corrupt h = absurd (cc)
running_needs_record (json null) h = absurd (cc)
running_needs_record (json (boolean b)) h = absurd (cc)
running_needs_record (json (integer z)) h = absurd (cc)
running_needs_record (json fraction) h = absurd (cc)
running_needs_record (json (text t)) h = absurd (cc)
running_needs_record (json (array xs)) h = absurd (cc)
