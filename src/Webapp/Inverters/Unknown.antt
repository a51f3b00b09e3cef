-- ===== src/Webapp/Inverters/Unknown.antt =====
-- An addition with a type that no plugin has.
use pv_inverter_master.Base.{
  ℕ, ◌≡◌, refl, ap, ◌∙◌, String, Bool, true, false, Option, none, some, List, [], ◌∷◌, ◌++◌,
  str_eq_self, if◌then◌else◌, pos, Bool-cases, inl, inr, All-++,
}
use pv_inverter_master.Json.{
  Value, boolean, integer, text, object, Fields, get, has_key, put, truthy,
}
use pv_inverter_master.Config.{Config, save_config, load_config}
use pv_inverter_master.Config.Checks.{is_text, is_enabled, valid, validate_inverter_config}
use pv_inverter_master.Registry.{
  DeviceRegistry, find_entry, is_known_type, start_entry, start_device, text_of, go_on, start_each,
  start_all,
}
use pv_inverter_master.Webapp.Inverters.{
  Plant, crashed, reconfigure_active, given, entry_of, add_entry, add_body, inverters_add_handler,
}
use pv_inverter_master.Config.RoundTrip.{IsEntry, IsShaped, restarted, load_config-save_config}
use pv_inverter_master.Updater.Config.{YamlFile}

go_on-fails :
    (millis : Value → ℕ) (x : DeviceRegistry × Bool) (next : DeviceRegistry → DeviceRegistry × Bool)
    → ((r : DeviceRegistry) → (next r).1 ≡ false)
    → (go_on millis x next).1 ≡ false
go_on-fails millis (r, true) next h = h r
go_on-fails millis (r, false) next h = refl

-- The start ends with an exception at an entry whose start does, if not before.
start_each-fails :
    (millis : Value → ℕ) (c : Config) (e : Fields) (es : List Fields) (r : DeviceRegistry)
    → is_enabled e ≡ true
    → ((r : DeviceRegistry) → (start_device millis c (text_of (get "id" e)) r).1 ≡ false)
    → (start_each millis c (es ++ e ∷ []) r).1 ≡ false
unfolding start_each
start_each-fails millis c e [] r on h =
    rw on (go_on-fails-at (start_device millis c (text_of (get "id" e)) r) (h r))
  where
    go_on-fails-at :
        (x : DeviceRegistry × Bool) → x.1 ≡ false → (go_on millis x (λ r'. (r', true))).1 ≡ false
    go_on-fails-at (r, true) k = k
    go_on-fails-at (r, false) k = refl
start_each-fails millis c e (f ∷ fs) r on h =
    go_on-fails millis
      (if is_enabled f then start_device millis c (text_of (get "id" f)) r else (r, true))
      (λ r'. start_each millis c (fs ++ e ∷ []) r') (λ r'. start_each-fails millis c e fs r' on h)

find_entry-last :
    (id : String) (e : Fields) (es : List Fields)
    → find_entry id es ≡ none
    → is_text id (get "id" e) ≡ true
    → find_entry id (es ++ e ∷ []) ≡ some e
unfolding find_entry
find_entry-last id e [] n h = rw h refl
find_entry-last id e (f ∷ fs) n h = elim (Bool-cases (is_text id (get "id" f))) [
  | inl here ↦ absurd (never (rw here at n))
  | inr there ↦ rw there (find_entry-last id e fs (rw there at n) h)
]
  where
    never : ◌≡◌ {A = Option Fields} (some f) none → ⊥
    never k = cc

entry_of-parts :
    (id : String) (body : Fields)
    → (get "id" (entry_of id body) ≡ text id)
      × (get "type" (entry_of id body) ≡ given "type" (text "solaredge") body)
      × (get "enabled" (entry_of id body) ≡ given "enabled" (boolean true) body)
unfolding entry_of put get
entry_of-parts id body = (refl, refl, refl)

start_unknown :
    (millis : Value → ℕ) (c : Config) (id : String) (e : Fields) (r : DeviceRegistry)
    → find_entry id c.inverters ≡ some e
    → is_enabled e ≡ true
    → is_known_type (get "type" e) ≡ false
    → start_device millis c id r ≡ (r, false)
unfolding start_device start_entry
start_unknown millis c id e r found on other = rw (found, on, other) refl

added_unknown :
    (millis : Value → ℕ) (is_address : Value → Bool) (id : String) (e : Fields) (p : Plant)
    → find_entry id p.config.inverters ≡ none
    → get "id" e ≡ text id
    → is_enabled e ≡ true
    → is_known_type (get "type" e) ≡ false
    → let c = record p.config { inverters = p.config.inverters ++ e ∷ [] } in
      let (p', answer) = add_entry millis is_address true id e p in
      (answer ≡ crashed)
      × (p'.config_file ≡ save_config true c p.config_file)
      × ((r : DeviceRegistry) → (start_all millis c r).1 ≡ false)
unfolding add_entry reconfigure_active start_all save_config
added_unknown millis is_address id e p new named on other =
    let c : Config = record p.config { inverters = p.config.inverters ++ e ∷ [] } in
    let fails : (r : DeviceRegistry) → start_device millis c id r ≡ (r, false) = λ r.
      start_unknown millis c id e r
        (find_entry-last id e p.config.inverters new (ap (is_text id) named ∙ str_eq_self id)) on
        other in
    rw (on, fails p.registry)
      (
        refl,
        refl,
        λ r. start_each-fails millis c e p.config.inverters r on (λ r.
            ap (λ v. (start_device millis c (text_of v) r).1) named ∙ ap (λ x. x.1) (fails r)),
      )

entry_of-IsEntry : (id : String) (body : Fields) → IsEntry (entry_of id body)
unfolding entry_of put get
entry_of-IsEntry id body = refl

appended-IsShaped :
    (e : Fields) (c : Config)
    → IsEntry e
    → IsShaped c
    → IsShaped (record c { inverters = c.inverters ++ e ∷ [] })
appended-IsShaped e c h s = record {
  inverters = All-++ IsEntry c.inverters (e ∷ []) s.inverters (h, tt);
  gateways = s.gateways;
  proxy = s.proxy;
  night_mode = s.night_mode;
  webapp = s.webapp;
  venus = s.venus;
  scanner = s.scanner;
  mqtt_publish = s.mqtt_publish;
  virtual_inverter = s.virtual_inverter;
}

restarted-append :
    (fresh : ℕ → String) (e : Fields) (es : List Fields)
    → restarted fresh (es ++ e ∷ []) ≡ es ++ e ∷ []
restarted-append fresh e [] = refl
restarted-append fresh e (f ∷ fs) = refl

-- An addition is loaded at the next start.
appended_loads :
    (fresh : ℕ → String) (e : Fields) (c : Config) (f : YamlFile)
    → IsEntry e
    → IsShaped c
    → let c' = record c { inverters = c.inverters ++ e ∷ [] } in
      load_config fresh (save_config true c' f) ≡ some c'
appended_loads fresh e c f h s =
    let es = c.inverters ++ e ∷ [] in
    (load_config-save_config fresh (record c { inverters = es }) f (appended-IsShaped e c h s)).0
    ∙ ap (λ es. some (record c { inverters = es })) (restarted-append fresh e c.inverters)

-- An addition that is valid and enabled, with a fresh identifier and a type that no plugin has, and whose
-- save succeeds, to a configuration whose instances have the fields of their classes, is answered 500;
-- but each later start of the program loads the configuration with the new entry, and its
-- `start_all` raises.
pub unknown_type_stops_boot :
    (millis : Value → ℕ) (is_address : Value → Bool) (fresh : ℕ → String) (id : String)
    (body : Fields) (p : Plant)
    → IsShaped p.config
    → has_key "host" body ≡ true
    → validate_inverter_config is_address
        (get "host" body)
        (given "port" (integer (pos 1502)) body)
        (given "unit_id" (integer (pos 1)) body)
      ≡ valid
    → truthy (given "enabled" (boolean true) body) ≡ true
    → is_known_type (given "type" (text "solaredge") body) ≡ false
    → find_entry id p.config.inverters ≡ none
    → let c = record p.config { inverters = p.config.inverters ++ entry_of id body ∷ [] } in
      let (p', answer) = inverters_add_handler millis is_address true id (some (object body)) p in
      (answer ≡ crashed)
      × (load_config fresh p'.config_file ≡ some c)
      × ((r : DeviceRegistry) → (start_all millis c r).1 ≡ false)
unfolding inverters_add_handler add_body
unknown_type_stops_boot millis is_address fresh id body p shaped hosted ok on other new =
    let (named, kind, enabled) = entry_of-parts id body in
    let e = entry_of id body in
    let (failed, file, raising) =
      added_unknown millis is_address id e p new named (ap truthy enabled ∙ on)
        (ap is_known_type kind ∙ other) in
    let loads =
      ap (load_config fresh) file
      ∙ appended_loads fresh e p.config p.config_file (entry_of-IsEntry id body) shaped in
    rw (hosted, ok) (failed, loads, raising)
