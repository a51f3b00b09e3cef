-- ===== src/Updater/Health/Termination.antt =====
-- How long the health check waits.
use mathlib.Core.Path.{subst}
use pv_inverter_master.Base.{
  ℕ, zero, suc, ◌+◌, ◌-◌, ◌*◌, ◌≡◌, refl, ap, ◌∙◌, ◌≤◌, String, Bool, true, false, ◌&&◌, Option,
  none, some, arith, leb, Bool-cases, inl, inr,
}
use pv_inverter_master.Json.{Value, null, boolean, integer, fraction, text, array, object, Fields}
use pv_inverter_master.Updater.Health.{
  HealthCheckConfig, HealthCheckOutcome, LastResponse, Reply, unreachable, server_error, not_json,
  body, Round, Progress, Verdict, ended, going, degraded, judge, read_body, request, probe,
  hard_exit, top, start, loop, wait_for_healthy, is_mismatch, is_required_ok,
}

-- The clock: a round begins at least the poll interval after the one before.
abbrev pub Paced : ℕ → ℕ → (ℕ → Round) → Type 0
Paced interval t0 rounds =
    (t0 ≤ (rounds 0).now) × ((i : ℕ) → (rounds i).now + interval ≤ (rounds (suc i)).now)

abbrev pub probes_of : Verdict → ℕ
probes_of (ended o) = o.probes
probes_of (going p) = p.probes

degraded-probes :
    (c : HealthCheckConfig) (now : ℕ) (last : LastResponse) (o : Option ℕ) (p : Progress)
    → probes_of (degraded c now last o p) ≡ p.probes
unfolding degraded
degraded-probes c now last none p = refl
degraded-probes c now last (some since) p =
    elim (Bool-cases (leb c.degraded_timeout (now - since))) [
      | inl long ↦ rw long refl
      | inr short ↦ rw short refl
    ]

judge-probes :
    (expected : Option String) (fs : Fields) (p : Progress)
    → probes_of (judge expected fs p) ≡ p.probes
unfolding judge
judge-probes expected fs p = elim (Bool-cases (is_mismatch expected fs)) [
  | inl other ↦ rw other refl
  | inr same ↦ elim (Bool-cases (is_required_ok fs)) [
    | inl good ↦ rw (same, good) refl
    | inr bad ↦ rw (same, bad) refl
  ]
]

read_body-probes :
    (c : HealthCheckConfig) (expected : Option String) (now : ℕ) (v : Value) (p : Progress)
    → probes_of (read_body c expected now v p) ≡ p.probes
unfolding read_body degraded
read_body-probes c expected now (object fs) p = judge-probes expected fs p
read_body-probes c expected now null p = refl
read_body-probes c expected now (boolean b) p = refl
read_body-probes c expected now (integer z) p = refl
read_body-probes c expected now fraction p = refl
read_body-probes c expected now (text s) p = refl
read_body-probes c expected now (array xs) p = refl

request-probes :
    (c : HealthCheckConfig) (expected : Option String) (now : ℕ) (r : Reply) (p : Progress)
    → probes_of (request c expected now r p) ≡ p.probes
unfolding request
request-probes c expected now unreachable p = degraded-probes c now _ p.first_degraded_at p
request-probes c expected now server_error p =
    degraded-probes c now p.last_response p.first_degraded_at p
request-probes c expected now not_json p = refl
request-probes c expected now (body v) p = read_body-probes c expected now v _

pub probe-probes :
    (c : HealthCheckConfig) (expected : Option String) (r : Round) (p : Progress)
    → probes_of (probe c expected r p) ≡ suc p.probes
unfolding probe
probe-probes c expected r p = elim (Bool-cases r.is_active) [
  | inl up ↦ rw up (request-probes c expected r.now r.reply (record p { probes = suc p.probes }))
  | inr down ↦ rw down refl
]

-- An outcome, of at most `n` probes.
abbrev Ends : ℕ → Option HealthCheckOutcome → Type 0
Ends n none = ⊥
Ends n (some o) = o.probes ≤ n

-- None, or an outcome of at most `n` probes.
abbrev Bounded : ℕ → Option HealthCheckOutcome → Type 0
Bounded n none = Unit
Bounded n (some o) = o.probes ≤ n

hard_exit-probes :
    (c : HealthCheckConfig) (flag : Bool) (p : Progress) → (hard_exit c flag p).probes ≡ p.probes
unfolding hard_exit
hard_exit-probes c false p = refl
hard_exit-probes c true p = elim (Bool-cases (leb c.consecutive_ok_required p.consecutive_ok)) [
  | inl enough ↦ rw enough refl
  | inr few ↦ rw few refl
]

top-Ends :
    (c : HealthCheckConfig) (t0 : ℕ) (r : Round) (p : Progress)
    → c.hard_timeout ≤ r.now - t0
    → Ends p.probes (top c t0 r p)
unfolding top
top-Ends c t0 r p late =
    elim (Bool-cases (leb c.consecutive_ok_required p.consecutive_ok && r.flag)) [
      | inl stable ↦ rw stable (omega arith)
      | inr not_yet ↦
          let over : leb c.hard_timeout (r.now - t0) ≡ true = ground arith in
          rw (not_yet, over) (omega (arith, hard_exit-probes c r.flag_after p))
    ]

top-Bounded :
    (c : HealthCheckConfig) (t0 : ℕ) (r : Round) (p : Progress) → Bounded p.probes (top c t0 r p)
unfolding top
top-Bounded c t0 r p =
    elim (Bool-cases (leb c.consecutive_ok_required p.consecutive_ok && r.flag)) [
      | inl stable ↦ rw stable (omega arith)
      | inr not_yet ↦ elim (Bool-cases (leb c.hard_timeout (r.now - t0))) [
        | inl over ↦ rw (not_yet, over) (omega (arith, hard_exit-probes c r.flag_after p))
        | inr early ↦ rw (not_yet, early) tt
      ]
    ]

module _ (c : HealthCheckConfig) (expected : Option String) (t0 : ℕ) (rounds : ℕ → Round) where
  decide :
      (n m : ℕ) (t rest : Option HealthCheckOutcome)
      → m ≤ n
      → Bounded m t
      → Ends n rest
      → Ends n (elim t [ some o ↦ some o | none ↦ rest ])
  decide n m none rest le b h = h
  decide n m (some o) rest le b h = omega (arith, le, b)

  follow :
      (n f i : ℕ) (v : Verdict)
      → probes_of v ≡ suc i
      → suc i ≤ n
      → ((p : Progress) → p.probes ≡ suc i → Ends n (loop c expected t0 rounds f (suc i) p))
      → Ends n (elim v [ ended o ↦ some o | going p ↦ loop c expected t0 rounds f (suc i) p ])
  follow n f i (ended o) e le h = omega (arith, e, le)
  follow n f i (going p) e le h = h p e

  at_once :
      (n m : ℕ) (t rest : Option HealthCheckOutcome)
      → m ≤ n
      → Ends m t
      → Ends n (elim t [ some o ↦ some o | none ↦ rest ])
  at_once n m none rest le h = absurd h
  at_once n m (some o) rest le h = omega (arith, le, h)

  loop-Ends :
      (n f i : ℕ) (p : Progress)
      → n ≡ i + f
      → p.probes ≡ i
      → c.hard_timeout ≤ (rounds n).now - t0
      → Ends n (loop c expected t0 rounds (suc f) i p)
  unfolding loop
  loop-Ends n zero i p e counted late =
      let here : n ≡ i = omega (arith, e) in
      at_once n p.probes (top c t0 (rounds i) p) _ (omega (arith, e, counted))
        (top-Ends c t0 (rounds i) p (subst (λ k. c.hard_timeout ≤ (rounds k).now - t0) here late))
  loop-Ends n (suc f) i p e counted late =
      decide n p.probes (top c t0 (rounds i) p) _ (omega (arith, e, counted))
        (top-Bounded c t0 (rounds i) p)
        (follow n (suc f) i (probe c expected (rounds i) p)
          (probe-probes c expected (rounds i) p ∙ ap suc counted) (omega (arith, e))
          (λ p' k. loop-Ends n f (suc i) p' (omega (arith, e)) k late))

  clock : (interval n : ℕ) → Paced interval t0 rounds → t0 + n * interval ≤ (rounds n).now
  clock interval zero h = omega (arith, h.0)
  clock interval (suc n) h = omega (arith, clock interval n h, h.1 n)

  outcome_of :
      (n : ℕ) (r : Option HealthCheckOutcome)
      → Ends n r
      → (o : HealthCheckOutcome) × (r ≡ some o) × (o.probes ≤ n)
  outcome_of n none h = absurd h
  outcome_of n (some o) h = (o, refl, h)

  -- Whatever the service answers, the check ends: with rounds that are at least the poll interval apart,
  -- it gives an outcome within `n` probes when `n` intervals reach the hard timeout.
  pub wait_for_healthy_ends :
      (n : ℕ)
      → Paced c.poll_interval t0 rounds
      → c.hard_timeout ≤ n * c.poll_interval
      → (o : HealthCheckOutcome) × (wait_for_healthy c expected t0 rounds (suc n) ≡ some o)
        × (o.probes ≤ n)
  unfolding wait_for_healthy
  wait_for_healthy_ends n paced enough =
      let late : c.hard_timeout ≤ (rounds n).now - t0 =
        omega (arith, clock c.poll_interval n paced, enough) in
      outcome_of n (loop c expected t0 rounds (suc n) 0 start)
        (loop-Ends n n 0 start (omega arith) refl late)
