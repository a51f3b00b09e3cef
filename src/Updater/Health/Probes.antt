-- ===== src/Updater/Health/Probes.antt =====
-- What one probe of the health check does.
use mathlib.Core.Path.{subst}
use pv_inverter_master.Base.{
  ℕ, suc, ◌-◌, ◌≡◌, refl, ◌≤◌, ◌<◌, String, Bool, true, false, not, ◌&&◌, Option, none, some, arith,
  leb, if◌then◌else◌, Bool-cases, inl, inr,
}
use pv_inverter_master.Json.{Value, null, boolean, integer, fraction, text, array, object, Fields}
use pv_inverter_master.Updater.Health.{
  HealthCheckConfig, LastResponse, Reply, unreachable, server_error, not_json, body, Round,
  Progress, Verdict, ended, going, degraded, judge, read_body, request, probe, is_mismatch,
  is_required_ok,
}
use pv_inverter_master.Updater.Health.Stable.{is_good, is_good_reply}

-- The unit is active, and no body names another version.
abbrev pub is_other_version : Option String → Reply → Bool
is_other_version expected (body (object fs)) = is_mismatch expected fs
is_other_version expected _ = false

abbrev pub is_tolerated : Option String → Round → Bool
is_tolerated expected r = r.is_active && not (is_other_version expected r.reply)

-- The streak of bad replies did not begin before `t0`.
abbrev pub Since : ℕ → Option ℕ → Type 0
Since t0 none = Unit
Since t0 (some since) = t0 ≤ since

-- The probe goes on, and a streak begins at `now` at the earliest if it did at `t0` before.
abbrev pub GoesOn : ℕ → Verdict → Type 0
GoesOn t0 (ended o) = ⊥
GoesOn t0 (going p) = Since t0 p.first_degraded_at

module _ (c : HealthCheckConfig) (expected : Option String) (t0 : ℕ) where
  degraded-GoesOn :
      (now : ℕ) (last : LastResponse) (o : Option ℕ) (p : Progress)
      → Since t0 o
      → t0 ≤ now
      → now - t0 < c.degraded_timeout
      → o ≡ p.first_degraded_at
      → GoesOn t0 (degraded c now last o p)
  unfolding degraded
  degraded-GoesOn now last none p h le early e = le
  degraded-GoesOn now last (some since) p h le early e =
      let short : leb c.degraded_timeout (now - since) ≡ false = ground (arith, h, le, early) in
      rw short (subst (Since t0) e h)

  judge-GoesOn :
      (fs : Fields) (p : Progress)
      → is_mismatch expected fs ≡ false
      → Since t0 p.first_degraded_at
      → GoesOn t0 (judge expected fs p)
  unfolding judge
  judge-GoesOn fs p same h = elim (Bool-cases (is_required_ok fs)) [
    | inl good ↦ rw (same, good) h
    | inr bad ↦ rw (same, bad) h
  ]

  read_body-GoesOn :
      (now : ℕ) (v : Value) (p : Progress)
      → t0 ≤ now
      → is_other_version expected (body v) ≡ false
      → Since t0 p.first_degraded_at
      → GoesOn t0 (read_body c expected now v p)
  unfolding read_body degraded
  read_body-GoesOn now (object fs) p le same h = judge-GoesOn fs p same h
  read_body-GoesOn now null p le same h = le
  read_body-GoesOn now (boolean b) p le same h = le
  read_body-GoesOn now (integer z) p le same h = le
  read_body-GoesOn now fraction p le same h = le
  read_body-GoesOn now (text s) p le same h = le
  read_body-GoesOn now (array xs) p le same h = le

  request-GoesOn :
      (now : ℕ) (r : Reply) (p : Progress)
      → is_other_version expected r ≡ false
      → Since t0 p.first_degraded_at
      → t0 ≤ now
      → now - t0 < c.degraded_timeout
      → GoesOn t0 (request c expected now r p)
  unfolding request
  request-GoesOn now unreachable p same h le early =
      degraded-GoesOn now _ p.first_degraded_at p h le early refl
  request-GoesOn now server_error p same h le early =
      degraded-GoesOn now p.last_response p.first_degraded_at p h le early refl
  request-GoesOn now not_json p same h le early = h
  request-GoesOn now (body v) p same h le early = read_body-GoesOn now v _ le same tt

  open_gate :
      (P : Verdict → Type 0) (v w : Verdict) (b : Bool) → b ≡ true → P v → P (if b then v else w)
  open_gate P v w true e h = h
  open_gate P v w false e h = absurd (cc)

  pub probe-GoesOn :
      (r : Round) (p : Progress)
      → is_tolerated expected r ≡ true
      → Since t0 p.first_degraded_at
      → t0 ≤ r.now
      → r.now - t0 < c.degraded_timeout
      → GoesOn t0 (probe c expected r p)
  unfolding probe
  probe-GoesOn r p tolerated h le early =
      open_gate (GoesOn t0) (request c expected r.now r.reply (record p { probes = suc p.probes }))
        _ r.is_active (ground arith)
        (request-GoesOn r.now r.reply (record p { probes = suc p.probes }) (ground arith) h le
          early)

  -- The count grows.
  abbrev pub GrowsTo : ℕ → Verdict → Type 0
  GrowsTo n (ended o) = ⊥
  GrowsTo n (going p) = p.consecutive_ok ≡ n

  request-GrowsTo :
      (now : ℕ) (r : Reply) (p : Progress)
      → is_good_reply expected r ≡ true
      → GrowsTo (suc p.consecutive_ok) (request c expected now r p)
  unfolding request read_body judge
  request-GrowsTo now (body (object fs)) p good =
      let same : is_mismatch expected fs ≡ false = ground arith in
      let well : is_required_ok fs ≡ true = ground arith in rw (same, well) refl
  request-GrowsTo now unreachable p good = absurd (cc)
  request-GrowsTo now server_error p good = absurd (cc)
  request-GrowsTo now not_json p good = absurd (cc)
  request-GrowsTo now (body null) p good = absurd (cc)
  request-GrowsTo now (body (boolean b)) p good = absurd (cc)
  request-GrowsTo now (body (integer z)) p good = absurd (cc)
  request-GrowsTo now (body fraction) p good = absurd (cc)
  request-GrowsTo now (body (text s)) p good = absurd (cc)
  request-GrowsTo now (body (array xs)) p good = absurd (cc)

  pub probe-GrowsTo :
      (r : Round) (p : Progress)
      → is_good expected r ≡ true
      → GrowsTo (suc p.consecutive_ok) (probe c expected r p)
  unfolding probe
  probe-GrowsTo r p good =
      let p' : Progress = record p { probes = suc p.probes } in
      open_gate (GrowsTo (suc p.consecutive_ok)) (request c expected r.now r.reply p') _ r.is_active
        (ground arith) (request-GrowsTo r.now r.reply p' (ground arith))
