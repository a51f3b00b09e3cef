-- ===== src/Updater/Exec/Hoare.antt =====
-- A partial-correctness predicate on the steps of an update attempt, and its rules: what holds when a
-- step goes on, leaves with an exit code, or raises.
use pv_inverter_master.Base.{
  ℕ, ◌+◌, String, Bool, true, false, Option, none, some, is_some, ◌≡◌, refl, sym, ap, ◌∙◌, ◌⊎◌, inl,
  inr,
}
use pv_inverter_master.Updater.Phase.{Phase}
use pv_inverter_master.Updater.Exec.{
  Written, written, unwritten, mode_unset, StatusState, Run, CurrentUpdate, ExitCode, Out, ret,
  raised, Flow, next, exit, raise, Step, ◌>>=◌, ◌>>◌, leave, call, begin, write_current,
  write_phase, finalize, resume, flush, flushed,
}

pub data Holds {A : Type 0} (E : ExitCode → Run → Type 0) (R : Run → Type 0) (Q : A → Run → Type 0)
    : Flow A × Run → Type 0 where
  goes_on : {a : A} {r : Run} → Q a r → Holds E R Q (next a, r)
  exits : {c : ExitCode} {r : Run} → E c r → Holds E R Q (exit c, r)
  raises : {r : Run} → R r → Holds E R Q (raise, r)

pub phase_of : Option CurrentUpdate → Option Phase
phase_of none = none
phase_of (some c) = some c.phase

pub phase_of-none : (c : Option CurrentUpdate) → is_some c ≡ false → phase_of c ≡ none
unfolding phase_of
phase_of-none none _ = refl
phase_of-none (some c) h = absurd (cc h)

-- The release that runs, the marker, and whether `begin` was called.
abbrev pub At : Bool → String → Option (String × String) → Run → Type 0
At s l m r = (is_some r.status.current ≡ s) × (r.link ≡ l) × (r.marker ≡ m)

-- The attempt is over in the phase `p`.
abbrev pub Ended : Phase → String → Option (String × String) → Run → Type 0
Ended p l m r = (phase_of r.status.current ≡ some p) × (r.link ≡ l) × (r.marker ≡ m)

module _ {E : ExitCode → Run → Type 0} {R : Run → Type 0} where
  pub Holds-resume :
      {A B : Type 0} {P : A → Run → Type 0} {Q : B → Run → Type 0} {f : A → Step B}
      {x : Flow A × Run}
      → Holds E R P x
      → ((a : A) (r : Run) → P a r → Holds E R Q (f a r))
      → Holds E R Q (resume f x.0 x.1)
  unfolding resume
  Holds-resume (goes_on p) k = k _ _ p
  Holds-resume (exits e) k = exits e
  Holds-resume (raises e) k = raises e

  pub step :
      {A B : Type 0} {P : A → Run → Type 0} {Q : B → Run → Type 0} (m : Step A) (f : A → Step B)
      (r : Run)
      → Holds E R P (m r)
      → ((a : A) (r' : Run) → P a r' → Holds E R Q (f a r'))
      → Holds E R Q ((m >>= f) r)
  unfolding ◌>>=◌
  step m f r h k = Holds-resume h k

  pub then_ :
      {B : Type 0} {P : Unit {0} → Run → Type 0} {Q : B → Run → Type 0} (m : Step (Unit {0}))
      (f : Step B) (r : Run)
      → Holds E R P (m r)
      → ((r' : Run) → P tt r' → Holds E R Q (f r'))
      → Holds E R Q ((m >> f) r)
  unfolding ◌>>◌
  then_ m f r h k = step m (λ _. f) r h (λ u r' p. k r' p)

  pub call-Holds :
      {A : Type 0} {P : Run → Type 0} (o : Out A) (r : Run)
      → R r
      → P r
      → Holds E R (λ a r'. (o ≡ ret a) × P r') (call o r)
  unfolding call
  call-Holds (ret a) r e p = goes_on (refl, p)
  call-Holds raised r e p = raises e

  flushed-Holds :
      {Q : Unit {0} → Run → Type 0} (o : Written) (r : Run)
      → Q tt (record r { status_file = some r.status; flushes = r.flushes + 1 })
      → ((f : Option StatusState) → R (record r { status_file = f; flushes = r.flushes + 1 }))
      → Holds E R Q (flushed o r)
  unfolding flushed
  flushed-Holds written r q e = goes_on q
  flushed-Holds unwritten r q e = raises (e r.status_file)
  flushed-Holds mode_unset r q e = raises (e (some r.status))

  module _ {l : String} {m : Option (String × String)}
      (escape : (r : Run) → r.link ≡ l → r.marker ≡ m → R r) where
    write_current-At :
        {s : Bool} (ok : ℕ → Written) (p : Phase) (e : Option String) (c : Option CurrentUpdate)
        (r : Run)
        → r.status.current ≡ c
        → At s l m r
        → Holds E R (λ _. At s l m) (write_current ok p e c r)
    unfolding write_current flush
    write_current-At ok p e none r eq h = goes_on h
    write_current-At ok p e (some c) r eq (h, hl, hm) =
        flushed-Holds (ok r.flushes) _ (sym (ap is_some eq) ∙ h, hl, hm) (λ f. escape _ hl hm)

    pub write_phase-At :
        {s : Bool} (ok : ℕ → Written) (p : Phase) (e : Option String) (r : Run)
        → At s l m r
        → Holds E R (λ _. At s l m) (write_phase ok p e r)
    unfolding write_phase
    write_phase-At ok p e r h = write_current-At ok p e r.status.current r refl h

    pub call-At :
        {s : Bool} {A : Type 0} (o : Out A) (r : Run)
        → At s l m r
        → Holds E R (λ a r'. (o ≡ ret a) × At s l m r') (call o r)
    call-At o r h = call-Holds o r (escape _ h.1 h.2) h

    pub begin-At :
        {s : Bool} (ok : ℕ → Written) (n t o : String) (r : Run)
        → At s l m r
        → Holds E R (λ _. At true l m) (begin ok n t o r)
    unfolding begin flush
    begin-At ok n t o r (_, hl, hm) =
        flushed-Holds (ok r.flushes) _ (refl, hl, hm) (λ f. escape _ hl hm)

    write_current-Ended :
        (ok : ℕ → Written) (p : Phase) (e : Option String) (c : Option CurrentUpdate) (r : Run)
        → is_some c ≡ true
        → r.link ≡ l
        → r.marker ≡ m
        → Holds E R (λ _. Ended p l m) (write_current ok p e c r)
    unfolding write_current flush phase_of
    write_current-Ended ok p e none r f _ _ = absurd (cc f)
    write_current-Ended ok p e (some c) r _ hl hm =
        flushed-Holds (ok r.flushes) _ (refl, hl, hm) (λ f. escape _ hl hm)

    -- An attempt that was begun ends: its last phase is written, then `run` is left.
    pub end_with :
        {A : Type 0} {Q : A → Run → Type 0} (ok : ℕ → Written) (p : Phase) (c : ExitCode) (r : Run)
        → ((r : Run) → Ended p l m r → E c r)
        → At true l m r
        → Holds E R Q ((finalize ok p >> leave c) r)
    unfolding finalize write_phase leave
    end_with ok p c r give (h, hl, hm) =
        then_ (write_phase ok p none) (leave c) r
          (write_current-Ended ok p none r.status.current r h hl hm) (λ r' e. exits (give r' e))

-- A status write leaves the release and the marker; the phase is the written one, if there is any.
abbrev pub Closed : Phase → Run → Run → Type 0
Closed p r r' =
    ((phase_of r'.status.current ≡ none) ⊎ (phase_of r'.status.current ≡ some p))
    × (r'.link ≡ r.link)
    × (r'.marker ≡ r.marker)

flushed_closes :
    {p : Phase} (o : Written) (r : Run)
    → phase_of r.status.current ≡ some p
    → Closed p r (flushed o r).1
unfolding flushed
flushed_closes written r h = (inr h, refl, refl)
flushed_closes unwritten r h = (inr h, refl, refl)
flushed_closes mode_unset r h = (inr h, refl, refl)

finalized :
    (ok : ℕ → Written) (p : Phase) (c : Option CurrentUpdate) (r : Run)
    → r.status.current ≡ c
    → Closed p r (write_current ok p none c r).1
unfolding write_current flush phase_of
finalized ok p none r e = (inl (ap phase_of e), refl, refl)
finalized ok p (some c) r e = flushed_closes (ok r.flushes) _ refl

pub finalize_lem : (ok : ℕ → Written) (p : Phase) (r : Run) → Closed p r (finalize ok p r).1
unfolding finalize write_phase
finalize_lem ok p r = finalized ok p r.status.current r refl
