-- ===== src/Webapp/Limits.antt =====
-- What the handlers of limits and of the lock do.
use pv_inverter_master.Base.{
  ℕ, ◌+◌, ◌≡◌, refl, ◌≤◌, String, true, false, Option, none, some, [], ◌∷◌, ◌++◌, ltb, Bool-cases,
  inl, inr, arith, str_eq, pos,
}
use pv_inverter_master.Json.{
  Value, null, boolean, integer, fraction, text, array, object, Fields, get, has_key,
}
use pv_inverter_master.Control.{
  Clock, unset, webapp, is_enabled, lock, set_from_webapp, update_wmaxlim_ena, update_wmaxlimpct,
  validate_wmaxlimpct, wmaxlimpct_float,
}
use pv_inverter_master.Webapp.{
  Server, Status, success, bad_request, crashed, FloatRead, no_float, overflow, nan, negative,
  infinite, at, apply_limit, set_limit, limit_action, with_action, power_limit_handler, lock_writes,
  lock_action, venus_lock_handler,
}

percentage_valid : (pct : ℕ) → pct ≤ 100 → validate_wmaxlimpct (pos pct) ≡ none
unfolding validate_wmaxlimpct
percentage_valid pct h = ground arith

set_limit-at :
    (pct : ℕ) (now : Clock) (s : Server)
    → pct ≤ 100
    → set_limit (at pct) now s ≡ (apply_limit pct now s, success)
unfolding set_limit
set_limit-at pct now s h =
    let fits : ltb 100 pct ≡ false = ground arith in rw (fits, percentage_valid pct h) refl

-- A success, or an answer that leaves the server as it was.
abbrev pub Settled : Server → Server × Status → Type 0
Settled s (s', success) = Unit
Settled s (s', bad_request) = s' ≡ s
Settled s (s', crashed) = s' ≡ s

module _ (to_float : Value → FloatRead) where
  set_action :
      (fs : Fields) (pct : ℕ) (now : Clock) (s : Server)
      → has_key "limit_pct" fs ≡ true
      → to_float (get "limit_pct" fs) ≡ at pct
      → pct ≤ 100
      → limit_action to_float "set" fs now s ≡ (apply_limit pct now s, success)
  unfolding limit_action
  set_action fs pct now s there read h = rw (there, read) (set_limit-at pct now s h)

  -- A limit of at most 100 % that the web application sets is enabled and owned by it, is due for release
  -- after five minutes, and is handed to the distributor once, whatever the clamps are and
  -- whoever set the last limit.
  pub web_limit_accepted :
      (fs : Fields) (pct : ℕ) (now : Clock) (s : Server)
      → get "action" fs ≡ text "set"
      → has_key "limit_pct" fs ≡ true
      → to_float (get "limit_pct" fs) ≡ at pct
      → pct ≤ 100
      → let (s', status) = power_limit_handler to_float (some (object fs)) now s in
        (status ≡ success)
        × (s'.control.wmaxlimpct_raw ≡ pct)
        × (is_enabled s'.control ≡ true)
        × (s'.control.last_source ≡ webapp)
        × (s'.control.webapp_revert_at ≡ some (now.mono + 300000))
        × (s'.distributed
            ≡ s.distributed
              ++ record { limit_pct = wmaxlimpct_float s'.control; enable = true } ∷ [])
  unfolding power_limit_handler with_action apply_limit set_from_webapp is_enabled wmaxlimpct_float
  web_limit_accepted fs pct now s action there read h =
      rw action (rw (set_action fs pct now s there read h) (refl, refl, refl, refl, refl, refl))

-- A lock stores a limit of 100 % that is not enabled, and releases nothing: the distributor is not called,
-- and a pending release of a limit of the web application keeps its time.
pub lock_sends_nothing :
    (fs : Fields) (now : Clock) (s : Server)
    → get "action" fs ≡ text "lock"
    → let (s', status) = venus_lock_handler (some (object fs)) now s in
      (status ≡ success)
      × (s'.control.is_locked ≡ true)
      × (s'.control.wmaxlimpct_raw ≡ 100)
      × (s'.control.wmaxlim_ena ≡ 0)
      × (s'.control.last_source ≡ unset)
      × (s'.control.webapp_revert_at ≡ s.control.webapp_revert_at)
      × (s'.distributed ≡ s.distributed)
unfolding venus_lock_handler lock_action lock_writes lock update_wmaxlim_ena update_wmaxlimpct
lock_sends_nothing fs now s action = rw action (refl, refl, refl, refl, refl, refl, refl)

set_limit-Settled : (f : FloatRead) (now : Clock) (s : Server) → Settled s (set_limit f now s)
unfolding set_limit
set_limit-Settled no_float now s = refl
set_limit-Settled nan now s = refl
set_limit-Settled negative now s = refl
set_limit-Settled infinite now s = refl
set_limit-Settled overflow now s = refl
set_limit-Settled (at pct) now s = elim (Bool-cases (ltb 100 pct)) [
  | inl over ↦ rw over refl
  | inr fits ↦ rw (fits, percentage_valid pct (ground arith)) tt
]

module _ (to_float : Value → FloatRead) where
  limit_action-Settled :
      (action : String) (fs : Fields) (now : Clock) (s : Server)
      → Settled s (limit_action to_float action fs now s)
  unfolding limit_action
  limit_action-Settled action fs now s = elim (Bool-cases (str_eq action "set")) [
    | inl sets ↦ elim (Bool-cases (has_key "limit_pct" fs)) [
      | inl there ↦ rw (sets, there) (set_limit-Settled (to_float (get "limit_pct" fs)) now s)
      | inr gone ↦ rw (sets, gone) refl
    ]
    | inr other ↦ elim (Bool-cases (str_eq action "enable")) [
      | inl enables ↦ rw (other, enables) tt
      | inr third ↦ elim (Bool-cases (str_eq action "disable")) [
        | inl disables ↦ rw (other, third, disables) tt
        | inr unknown ↦ rw (other, third, unknown) refl
      ]
    ]
  ]

  with_action-Settled :
      (v : Value) (fs : Fields) (now : Clock) (s : Server)
      → Settled s (with_action to_float v fs now s)
  unfolding with_action
  with_action-Settled (text action) fs now s = limit_action-Settled action fs now s
  with_action-Settled null fs now s = refl
  with_action-Settled (boolean b) fs now s = refl
  with_action-Settled (integer z) fs now s = refl
  with_action-Settled fraction fs now s = refl
  with_action-Settled (array xs) fs now s = refl
  with_action-Settled (object os) fs now s = refl

  -- A request for a limit that is answered with an error, a body that is no JSON or no dict included, changes
  -- neither the control state, nor the files, nor the log, and sends nothing to the distributor.
  pub power_limit_handler-Settled :
      (request : Option Value) (now : Clock) (s : Server)
      → Settled s (power_limit_handler to_float request now s)
  unfolding power_limit_handler
  power_limit_handler-Settled none now s = refl
  power_limit_handler-Settled (some (object fs)) now s =
      with_action-Settled (get "action" fs) fs now s
  power_limit_handler-Settled (some null) now s = refl
  power_limit_handler-Settled (some (boolean b)) now s = refl
  power_limit_handler-Settled (some (integer z)) now s = refl
  power_limit_handler-Settled (some fraction) now s = refl
  power_limit_handler-Settled (some (text t)) now s = refl
  power_limit_handler-Settled (some (array xs)) now s = refl
