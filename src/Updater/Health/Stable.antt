-- ===== src/Updater/Health/Stable.antt =====
-- What a successful health check has seen.
use mathlib.Core.Path.{subst}
use pv_inverter_master.Base.{
  ℕ, zero, suc, ◌-◌, ◌≡◌, refl, sym, ap, ◌∙◌, ◌≤◌, ◌<◌, ◌⊎◌, String, Bool, true, false, not, ◌&&◌,
  Option, none, some, arith, leb, if◌then◌else◌, Bool-cases, inl, inr,
}
use pv_inverter_master.Json.{Value, null, boolean, integer, fraction, text, array, object, Fields}
use pv_inverter_master.Updater.Health.{
  HealthCheckConfig, HealthCheckOutcome, LastResponse, Reply, stable_ok, unreachable, server_error,
  not_json, body, Round, Progress, Verdict, ended, going, degraded, judge, read_body, request,
  probe, hard_exit, top, start, loop, wait_for_healthy, is_mismatch, is_required_ok,
}
use pv_inverter_master.Updater.Health.Termination.{probe-probes, probes_of}

-- A reply that counts: a dict of the expected version, with all required components in order.
abbrev pub is_good_reply : Option String → Reply → Bool
is_good_reply expected (body (object fs)) = not (is_mismatch expected fs) && is_required_ok fs
is_good_reply expected _ = false

abbrev pub is_good : Option String → Round → Bool
is_good expected r = r.is_active && is_good_reply expected r.reply

-- A probe that ends the loop is a failure; one that goes on starts the count again, or is good.
abbrev Counted : ℕ → Bool → Verdict → Type 0
Counted n good (ended o) = o.success ≡ false
Counted n good (going p) = (p.consecutive_ok ≡ 0) ⊎ (p.consecutive_ok ≡ suc n) × (good ≡ true)

degraded-Counted :
    (c : HealthCheckConfig) (now : ℕ) (last : LastResponse) (o : Option ℕ) (p : Progress) (n : ℕ)
    (good : Bool)
    → Counted n good (degraded c now last o p)
unfolding degraded
degraded-Counted c now last none p n good = inl refl
degraded-Counted c now last (some since) p n good =
    elim (Bool-cases (leb c.degraded_timeout (now - since))) [
      | inl long ↦ rw long refl
      | inr short ↦ rw short (inl refl)
    ]

judge-Counted :
    (expected : Option String) (fs : Fields) (p : Progress)
    → Counted p.consecutive_ok
        (not (is_mismatch expected fs) && is_required_ok fs)
        (judge expected fs p)
unfolding judge
judge-Counted expected fs p = elim (Bool-cases (is_mismatch expected fs)) [
  | inl other ↦ rw other refl
  | inr same ↦ elim (Bool-cases (is_required_ok fs)) [
    | inl good ↦ rw (same, good) (inr (refl, refl))
    | inr bad ↦ rw (same, bad) (inl refl)
  ]
]

read_body-Counted :
    (c : HealthCheckConfig) (expected : Option String) (now : ℕ) (v : Value) (p : Progress)
    → Counted p.consecutive_ok (is_good_reply expected (body v)) (read_body c expected now v p)
unfolding read_body degraded
read_body-Counted c expected now (object fs) p = judge-Counted expected fs p
read_body-Counted c expected now null p = inl refl
read_body-Counted c expected now (boolean b) p = inl refl
read_body-Counted c expected now (integer z) p = inl refl
read_body-Counted c expected now fraction p = inl refl
read_body-Counted c expected now (text s) p = inl refl
read_body-Counted c expected now (array xs) p = inl refl

request-Counted :
    (c : HealthCheckConfig) (expected : Option String) (now : ℕ) (r : Reply) (p : Progress)
    → Counted p.consecutive_ok (is_good_reply expected r) (request c expected now r p)
unfolding request
request-Counted c expected now unreachable p =
    degraded-Counted c now _ p.first_degraded_at p p.consecutive_ok false
request-Counted c expected now server_error p =
    degraded-Counted c now p.last_response p.first_degraded_at p p.consecutive_ok false
request-Counted c expected now not_json p = inl refl
request-Counted c expected now (body v) p = read_body-Counted c expected now v _

gate :
    (n : ℕ) (good : Bool) (v : Verdict) (o : HealthCheckOutcome) (b : Bool)
    → Counted n good v
    → o.success ≡ false
    → Counted n (b && good) (if b then v else ended o)
gate n good v o true h k = h
gate n good v o false h k = k

probe-Counted :
    (c : HealthCheckConfig) (expected : Option String) (r : Round) (p : Progress)
    → Counted p.consecutive_ok (is_good expected r) (probe c expected r p)
unfolding probe
probe-Counted c expected r p =
    let p' : Progress = record p { probes = suc p.probes } in
    gate p.consecutive_ok (is_good_reply expected r.reply) (request c expected r.now r.reply p') _
      r.is_active (request-Counted c expected r.now r.reply p') refl

module _ (c : HealthCheckConfig) (expected : Option String) (t0 : ℕ) (rounds : ℕ → Round) where
  -- The last `n` of the first `i` probes were good.
  abbrev pub AllGood : ℕ → ℕ → Type 0
  AllGood i n = (j : ℕ) → j < n → is_good expected (rounds (i - suc j)) ≡ true

  -- A success after `i` probes: enough of the last ones were good, and the flag file was there.
  abbrev pub Justified : HealthCheckOutcome → Type 0
  Justified o =
      (o.reason ≡ stable_ok)
      × (c.consecutive_ok_required ≤ o.consecutive_ok)
      × (o.consecutive_ok ≤ o.probes)
      × AllGood o.probes o.consecutive_ok
      × (((rounds o.probes).flag ≡ true) ⊎ ((rounds o.probes).flag_after ≡ true))

  abbrev Counts : ℕ → Progress → Type 0
  Counts i p = (p.probes ≡ i) × (p.consecutive_ok ≤ i) × AllGood i p.consecutive_ok

  abbrev Claims : Option HealthCheckOutcome → Type 0
  Claims none = Unit
  Claims (some o) = o.success ≡ true → Justified o

  exit-Justified :
      (p : Progress) (flag : Bool)
      → Counts p.probes p
      → (rounds p.probes).flag_after ≡ flag
      → (hard_exit c flag p).success ≡ true
      → Justified (hard_exit c flag p)
  unfolding hard_exit
  exit-Justified p false k e s = absurd (cc)
  exit-Justified p true k e s = elim (Bool-cases (leb c.consecutive_ok_required p.consecutive_ok)) [
    | inl enough ↦ rw enough (refl, ground (arith, enough), k.1, k.2, inr e)
    | inr few ↦ absurd (failed few s)
  ]
    where
      failed :
          leb c.consecutive_ok_required p.consecutive_ok ≡ false
          → (hard_exit c true p).success ≡ true
          → ⊥
      failed few = rw few (λ t. cc)

  top-Claims : (p : Progress) → Counts p.probes p → Claims (top c t0 (rounds p.probes) p)
  unfolding top
  top-Claims p k =
      let r : Round = rounds p.probes in
      elim (Bool-cases (leb c.consecutive_ok_required p.consecutive_ok && r.flag)) [
        | inl stable ↦
            rw stable (λ s. (refl, ground (arith, stable), k.1, k.2, inl (ground (arith, stable))))
        | inr not_yet ↦ elim (Bool-cases (leb c.hard_timeout (r.now - t0))) [
          | inr early ↦ rw (not_yet, early) tt
          | inl over ↦ rw (not_yet, over) (exit-Justified p r.flag_after k refl)
        ]
      ]

  more_good : (i n : ℕ) → AllGood i n → is_good expected (rounds i) ≡ true → AllGood (suc i) (suc n)
  more_good i n h g zero le =
      let e : suc i - 1 ≡ i = omega arith in ap (λ k. is_good expected (rounds k)) e ∙ g
  more_good i n h g (suc j) le =
      let e : suc i - suc (suc j) ≡ i - suc j = omega arith in
      ap (λ k. is_good expected (rounds k)) e ∙ h j (omega (arith, le))

  counted_on :
      (i : ℕ) (p p' : Progress)
      → Counts i p
      → p'.probes ≡ suc p.probes
      → (p'.consecutive_ok ≡ 0)
        ⊎ (p'.consecutive_ok ≡ suc p.consecutive_ok) × (is_good expected (rounds i) ≡ true)
      → Counts (suc i) p'
  counted_on i p p' k e (inl zeroed) =
      (e ∙ ap suc k.0, omega (arith, zeroed), λ j le. absurd (omega (arith, le, zeroed)))
  counted_on i p p' k e (inr grown) = (
    e ∙ ap suc k.0,
    omega (arith, grown.0, k.1),
    subst (λ n. AllGood (suc i) n) (sym grown.0) (more_good i p.consecutive_ok k.2 grown.1),
  )

  follow :
      (f i : ℕ) (p : Progress) (v : Verdict)
      → Counts i p
      → probes_of v ≡ suc p.probes
      → Counted p.consecutive_ok (is_good expected (rounds i)) v
      → ((p' : Progress) → Counts (suc i) p' → Claims (loop c expected t0 rounds f (suc i) p'))
      → Claims (elim v [ ended o ↦ some o | going p' ↦ loop c expected t0 rounds f (suc i) p' ])
  follow f i p (ended o) k e g h = λ s. absurd (cc)
  follow f i p (going p') k e g h = h p' (counted_on i p p' k e g)

  decide :
      (t rest : Option HealthCheckOutcome)
      → Claims t
      → Claims rest
      → Claims (elim t [ some o ↦ some o | none ↦ rest ])
  decide none rest h k = k
  decide (some o) rest h k = h

  loop-Claims : (f i : ℕ) (p : Progress) → Counts i p → Claims (loop c expected t0 rounds f i p)
  unfolding loop
  loop-Claims zero i p k = tt
  loop-Claims (suc f) i p k =
      decide (top c t0 (rounds i) p) _
        (subst (λ n. Claims (top c t0 (rounds n) p)) k.0
          (top-Claims p (subst (λ n. Counts n p) (sym k.0) k)))
        (follow f i p (probe c expected (rounds i) p) k (probe-probes c expected (rounds i) p)
          (probe-Counted c expected (rounds i) p) (λ p' k'. loop-Claims f (suc i) p' k'))

  -- A success is justified: at least the required number of probes right before it were good, each with
  -- an active unit and a reply of the expected version in which every required component is in
  -- order, and the flag file was there at the end.
  pub success-Justified :
      (fuel : ℕ) (o : HealthCheckOutcome)
      → wait_for_healthy c expected t0 rounds fuel ≡ some o
      → o.success ≡ true
      → Justified o
  unfolding wait_for_healthy
  success-Justified fuel o e =
      subst Claims e
        (loop-Claims fuel 0 start (refl, omega arith, λ j le. absurd (omega (arith, le))))
