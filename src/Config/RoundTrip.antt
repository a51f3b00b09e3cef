-- ===== src/Config/RoundTrip.antt =====
-- A saved configuration, as the loader and the reader of the update settings see it.
use pv_inverter_master.Base.{
  ℕ, suc, ◌≡◌, refl, ap, sym, ◌∙◌, String, Bool, true, false, not, ◌&&◌, some, List, [], ◌∷◌,
  str_eq, eq_iff, str_eq_self, if◌then◌else◌, arith, Dict, All,
}
use pv_inverter_master.Json.{Value, array, Fields, end, field, get, has_key}
use pv_inverter_master.Updater.Config.{
  YamlFile, default_update_config, load_update_config, coerce_section,
}
use pv_inverter_master.Config.{
  Config, default_entry, default_gateway, default_proxy, default_night_mode, default_webapp,
  default_venus, default_scanner, default_mqtt_publish, default_virtual_inverter, overlay,
  load_entries, load_inverters, load_gateway_list, load_gateway_types, load_section, load_document,
  load_config, entries_value, gateways_value, asdict, save_config,
}

-- The keys of two field lists are the same, in the same order.
abbrev pub same_keys : Fields → Fields → Bool
same_keys end end = true
same_keys (field j v fs) (field k w gs) = str_eq j k && same_keys fs gs
same_keys _ _ = false

-- Each field of the second list is what the first has under its key.
abbrev Held : Fields → Fields → Type 0
Held raw end = Unit
Held raw (field k v fs) = (has_key k raw ≡ true) × (get k raw ≡ v) × Held raw fs

both : {a b : Bool} → a && b ≡ true → (a ≡ true) × (b ≡ true)
both h = (ground arith, ground arith)

overlay-Held : (d raw fs : Fields) → same_keys d fs ≡ true → Held raw fs → overlay d raw ≡ fs
unfolding overlay
overlay-Held end raw end s h = refl
overlay-Held (field j d ds) raw (field k v fs) s h =
    let (same, rest) = both s in
    let e = (eq_iff j k).0 same in
    ap (λ i. field i (if has_key i raw then get i raw else d) (overlay ds raw)) e
    ∙ (rw (h.0, h.1, overlay-Held ds raw fs rest h.2) refl)
overlay-Held end raw (field k v fs) s h = absurd (cc)
overlay-Held (field j d ds) raw end s h = absurd (cc)

-- No key twice.
abbrev distinct : Fields → Bool
distinct end = true
distinct (field k v fs) = not (has_key k fs) && distinct fs

str_eq-sym : (j k : String) → str_eq k j ≡ false → str_eq j k ≡ false
str_eq-sym j k h = grind (arith, eq_iff j k, eq_iff k j)

has_key-rest :
    (j k : String) (v : Value) (fs : Fields)
    → has_key j (field k v fs) ≡ false
    → (str_eq k j ≡ false) × (has_key j fs ≡ false)
unfolding has_key
has_key-rest j k v fs h = (ground arith, ground arith)

Held-cons :
    (j : String) (w : Value) (raw fs : Fields)
    → has_key j fs ≡ false
    → Held raw fs
    → Held (field j w raw) fs
unfolding has_key get
Held-cons j w raw end n h = tt
Held-cons j w raw (field k v fs) n h =
    let (other, rest) = has_key-rest j k v fs n in
    rw (str_eq-sym j k other) (h.0, h.1, Held-cons j w raw fs rest h.2)

not-true : (b : Bool) → not b ≡ true → b ≡ false
not-true true h = sym h
not-true false h = refl

Held-self : (fs : Fields) → distinct fs ≡ true → Held fs fs
unfolding has_key get
Held-self end d = tt
Held-self (field k v fs) d =
    let (new, rest) = both d in
    rw (str_eq_self k)
      (refl, refl, Held-cons k v fs fs (not-true (has_key k fs) new) (Held-self fs rest))

same_keys-has_key :
    (j : String) (d fs : Fields) → same_keys d fs ≡ true → has_key j fs ≡ has_key j d
unfolding has_key
same_keys-has_key j end end s = refl
same_keys-has_key j (field i d ds) (field k v fs) s =
    let (same, rest) = both s in
    let e = (eq_iff i k).0 same in
    ap (λ i. if str_eq i j then true else has_key j fs) (sym e)
    ∙ ap (λ b. if str_eq i j then true else b) (same_keys-has_key j ds fs rest)
same_keys-has_key j end (field k v fs) s = absurd (cc)
same_keys-has_key j (field i d ds) end s = absurd (cc)

same_keys-distinct :
    (d fs : Fields) → same_keys d fs ≡ true → distinct d ≡ true → distinct fs ≡ true
same_keys-distinct end end s h = refl
same_keys-distinct (field i d ds) (field k v fs) s h =
    let (same, rest) = both s in
    let (new, others) = both h in
    let e = (eq_iff i k).0 same in
    let fresh : has_key k fs ≡ false =
      same_keys-has_key k ds fs rest
      ∙ ap (λ j. has_key j ds) (sym e)
      ∙ not-true (has_key i ds) new in
    rw (fresh, same_keys-distinct ds fs rest others) refl
same_keys-distinct end (field k v fs) s h = absurd (cc)
same_keys-distinct (field i d ds) end s h = absurd (cc)

-- An instance with the fields of its class is loaded as it is.
overlay-same : (d fs : Fields) → distinct d ≡ true → same_keys d fs ≡ true → overlay d fs ≡ fs
overlay-same d fs h s = overlay-Held d fs fs s (Held-self fs (same_keys-distinct d fs s h))

abbrev pub IsEntry : Fields → Type 0
IsEntry e = same_keys (default_entry "") e ≡ true

abbrev pub IsGateway : Fields → Type 0
IsGateway g = same_keys default_gateway g ≡ true

abbrev pub AllGateways : Dict (List Fields) → Type 0
AllGateways [] = Unit
AllGateways ((t, gws) ∷ rest) = All IsGateway gws × AllGateways rest

-- Each instance has the fields of its class, in their order.
pub record IsShaped (c : Config) : Type 0 where
  pub inverters : All IsEntry c.inverters
  pub gateways : AllGateways c.gateways
  pub proxy : same_keys default_proxy c.proxy ≡ true
  pub night_mode : same_keys default_night_mode c.night_mode ≡ true
  pub webapp : same_keys default_webapp c.webapp ≡ true
  pub venus : same_keys default_venus c.venus ≡ true
  pub scanner : same_keys default_scanner c.scanner ≡ true
  pub mqtt_publish : same_keys default_mqtt_publish c.mqtt_publish ≡ true
  pub virtual_inverter : same_keys default_virtual_inverter c.virtual_inverter ≡ true

entry-same : (id : String) (e : Fields) → IsEntry e → overlay (default_entry id) e ≡ e
unfolding has_key
entry-same id e h = overlay-same (default_entry id) e refl h

load_entries-value :
    (fresh : ℕ → String) (n : ℕ) (es : List Fields)
    → All IsEntry es
    → load_entries fresh n (entries_value es) ≡ some es
unfolding load_entries entries_value
load_entries-value fresh n [] h = refl
load_entries-value fresh n (e ∷ es) h =
    rw (load_entries-value fresh (suc n) es h.1, entry-same (fresh n) e h.0) refl

load_gateway_list-value :
    (gws : List Fields) → All IsGateway gws → load_gateway_list (entries_value gws) ≡ gws
unfolding load_gateway_list entries_value has_key
load_gateway_list-value [] h = refl
load_gateway_list-value (g ∷ gs) h =
    rw (overlay-same default_gateway g refl h.0, load_gateway_list-value gs h.1) refl

load_gateway_types-value :
    (d : Dict (List Fields)) → AllGateways d → load_gateway_types (gateways_value d) ≡ d
unfolding load_gateway_types gateways_value
load_gateway_types-value [] h = refl
load_gateway_types-value ((t, gws) ∷ rest) h =
    rw (load_gateway_list-value gws h.0, load_gateway_types-value rest h.1) refl

-- The entries that a saved list gives at the next start: a list without entries gives the default one.
abbrev pub restarted : (ℕ → String) → List Fields → List Fields
restarted fresh [] = default_entry (fresh 0) ∷ []
restarted fresh (e ∷ es) = e ∷ es

load_inverters-value :
    (fresh : ℕ → String) (es : List Fields)
    → All IsEntry es
    → load_inverters fresh (array (entries_value es)) ≡ some (restarted fresh es)
unfolding load_inverters entries_value
load_inverters-value fresh [] h = refl
load_inverters-value fresh (e ∷ es) h = load_entries-value fresh 0 (e ∷ es) h

-- A configuration whose instances have the fields of their classes is loaded, after a save that succeeds,
-- as it was, but for an empty list of inverters, which comes back as the default inverter; and the save
-- removes the update settings from the file: their reader finds the defaults.
pub load_config-save_config :
    (fresh : ℕ → String) (c : Config) (f : YamlFile)
    → IsShaped c
    → (load_config fresh (save_config true c f)
        ≡ some (record c { inverters = restarted fresh c.inverters }))
      × (load_update_config (save_config true c f) ≡ default_update_config)
unfolding load_config save_config asdict load_document load_section get has_key load_update_config
    coerce_section
load_config-save_config fresh c f h = (
  rw
      (
        load_inverters-value fresh c.inverters h.inverters,
        load_gateway_types-value c.gateways h.gateways,
        overlay-same default_proxy c.proxy refl h.proxy,
        overlay-same default_night_mode c.night_mode refl h.night_mode,
        overlay-same default_webapp c.webapp refl h.webapp,
        overlay-same default_venus c.venus refl h.venus,
        overlay-same default_scanner c.scanner refl h.scanner,
        overlay-same default_mqtt_publish c.mqtt_publish refl h.mqtt_publish,
        overlay-same default_virtual_inverter c.virtual_inverter refl h.virtual_inverter,
      )
      refl,
  refl,
)
