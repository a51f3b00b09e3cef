-- ===== src/Updater/Scheduler/Offers.antt =====
-- What the scheduler offers, over any number of checks.
use mathlib.Core.Path.{subst}
use pv_inverter_master.Base.{
  ℕ, ◌≡◌, refl, ap, sym, ◌∙◌, String, true, false, not, ◌&&◌, Option, none, some, List, [], ◌∷◌,
  Bool-cases, inl, inr, str_eq, eq_iff,
}
use pv_inverter_master.Json.{Value}
use pv_inverter_master.Sunspec.{codes}
use pv_inverter_master.Updater.Github.{ReleaseInfo, fetch_latest_release}
use pv_inverter_master.Updater.Version.{Version, parse, newer}
use pv_inverter_master.Updater.Scheduler.{
  Offer, UpdateInfo, or_unknown, is_newer, offer_of, offered, broadcast, same_offer,
  on_update_available, UpdateCheckScheduler, Surroundings, Probe, active, inactive, broken,
  unless_active, check_once, run_one_iteration,
}

-- The tag of an offer is a version, and newer than the current one where that is a version.
abbrev pub IsUpgrade : Option String → Offer → Type 0
IsUpgrade current o =
    (latest : Version) × (parse (codes o.tag_name) ≡ some latest)
    × ((t : String) (v : Version)
        → current ≡ some t
        → parse (codes t) ≡ some v
        → newer latest v ≡ true)

abbrev pub IsOffered : Option String → Option Offer → Type 0
IsOffered current none = Unit
IsOffered current (some o) = IsUpgrade current o

unknown_unparsed : (parse (codes "unknown") ≡ none) × (parse (codes "") ≡ none)
unfolding parse
unknown_unparsed = (refl, refl)

none-ne-some : {v : Version} → ◌≡◌ {A = Option Version} none (some v) → ⊥
none-ne-some e = cc

unparsed-ne :
    (t u : String) (v : Version)
    → parse (codes t) ≡ some v
    → parse (codes u) ≡ none
    → str_eq t u ≡ false
unparsed-ne t u v e n = elim (Bool-cases (str_eq t u)) [
  | inl same ↦
      absurd (none-ne-some (sym n ∙ ap (λ s. parse (codes s)) (sym ((eq_iff t u).0 same)) ∙ e))
  | inr other ↦ other
]

is_newer-newer :
    (latest v : Version) (t : String)
    → is_newer (some latest) (or_unknown (some t)) ≡ true
    → parse (codes t) ≡ some v
    → newer latest v ≡ true
is_newer-newer latest v t h e =
    let known = unparsed-ne t "unknown" v e unknown_unparsed.0 in
    let full = unparsed-ne t "" v e unknown_unparsed.1 in rw (full, known, e) at h

is_newer-IsUpgrade :
    (o : Offer) (current : Option String) (p : Option Version)
    → parse (codes o.tag_name) ≡ p
    → is_newer p (or_unknown current) ≡ true
    → IsUpgrade current o
is_newer-IsUpgrade o current none e h = absurd (cc)
is_newer-IsUpgrade o current (some latest) e h = (
  latest,
  e,
  λ t v ec ep.
      is_newer-newer latest v t (ap (λ c. is_newer (some latest) (or_unknown c)) (sym ec) ∙ h) ep,
)

offered-IsOffered :
    (r : ReleaseInfo) (current : Option String) → IsOffered current (offered r current)
offered-IsOffered r current =
    elim (Bool-cases (is_newer (parse (codes r.tag_name)) (or_unknown current))) [
      | inl up ↦ rw up (is_newer-IsUpgrade (offer_of r) current (parse (codes r.tag_name)) refl up)
      | inr old ↦ rw old tt
    ]

broadcast-same :
    (previous : Option Offer) (i : UpdateInfo)
    → ((broadcast previous i).available_update ≡ i.available_update)
      × ((broadcast previous i).current_version ≡ i.current_version)
broadcast-same previous i =
    elim (Bool-cases (not (same_offer i.available_update previous) && i.has_webapp)) [
      | inl b ↦ rw b (refl, refl)
      | inr b ↦ rw b (refl, refl)
    ]

-- What the callback offers: after a release that release if it is newer, else what was offered.
abbrev pub offer_after : Option ReleaseInfo → UpdateInfo → Option Offer
offer_after none i = i.available_update
offer_after (some r) i = offered r i.current_version

pub on_update_available-offer :
    (now : ℕ) (r : Option ReleaseInfo) (i : UpdateInfo)
    → let i' = on_update_available now r i in
      (i'.available_update ≡ offer_after r i) × (i'.current_version ≡ i.current_version)
unfolding on_update_available
on_update_available-offer now none i = (refl, refl)
on_update_available-offer now (some r) i =
    broadcast-same i.available_update
      (record i { update_last_check_at = some now; available_update = offered r i.current_version })

module _ (py_str : Value → String) where
  -- The iterations of the loop, one after the other.
  unfoldable pub run : List Surroundings → UpdateCheckScheduler → UpdateCheckScheduler
  run [] s = s
  run (e ∷ es) s = run es (run_one_iteration py_str e s)

  offer_after-IsOffered :
      (r : Option ReleaseInfo) (i : UpdateInfo)
      → IsOffered i.current_version i.available_update
      → IsOffered i.current_version (offer_after r i)
  offer_after-IsOffered none i h = h
  offer_after-IsOffered (some r) i h = offered-IsOffered r i.current_version

  abbrev IsSound : Option String → UpdateCheckScheduler → Type 0
  IsSound v s = (s.info.current_version ≡ v) × IsOffered v s.info.available_update

  check_once-IsSound :
      (v : Option String) (e : Surroundings) (s : UpdateCheckScheduler)
      → IsSound v s
      → IsSound v (check_once py_str e s).0
  unfolding check_once
  check_once-IsSound v e s h =
      let r = (fetch_latest_release py_str e.written e.reply s.client).1 in
      let (offer, version) = on_update_available-offer e.now r s.info in
      let before = subst (λ c. IsOffered c s.info.available_update) (sym h.0) h.1 in
      let after =
        subst (λ c. IsOffered c (offer_after r s.info)) h.0
          (offer_after-IsOffered r s.info before) in
      (version ∙ h.0, subst (IsOffered v) (sym offer) after)

  unless_active-IsSound :
      (v : Option String) (p : Probe) (s c : UpdateCheckScheduler)
      → IsSound v s
      → IsSound v c
      → IsSound v (unless_active py_str p s c)
  unless_active-IsSound v active s c h k = h
  unless_active-IsSound v inactive s c h k = k
  unless_active-IsSound v broken s c h k = k

  run-IsSound :
      (v : Option String) (es : List Surroundings) (s : UpdateCheckScheduler)
      → IsSound v s
      → IsSound v (run es s)
  unfolding run run_one_iteration
  run-IsSound v [] s h = h
  run-IsSound v (e ∷ es) s h =
      run-IsSound v es (run_one_iteration py_str e s)
        (unless_active-IsSound v e.probe s (check_once py_str e s).0 h (check_once-IsSound v e s h))

  -- Whatever GitHub replies, and whatever the cache holds: after any number of checks the update that is
  -- offered, if there is one, has a tag that is a version, newer than the running one if that is a
  -- version, provided that this holds at the start.
  pub offers_are_upgrades :
      (es : List Surroundings) (s : UpdateCheckScheduler)
      → IsOffered s.info.current_version s.info.available_update
      → IsOffered s.info.current_version (run es s).info.available_update
  offers_are_upgrades es s h = (run-IsSound s.info.current_version es s (refl, h)).1
