-- ===== src/Updater/RateLimit/Sliding.antt =====
-- The rate limiter against a limiter that forgets nothing: for each client the time of its last
-- accepted request, and one accepted request in each window.
use mathlib.Core.Path.{subst}
use pv_inverter_master.Base.{
  ℕ, ◌+◌, ◌-◌, ◌*◌, ◌%◌, ◌≤◌, ◌<◌, ◌≡◌, refl, sym, ap, ◌∙◌, String, Bool, true, false, Option, none,
  some, List, [], ◌∷◌, arith, if◌then◌else◌, Dict, lookup, insert, lookup-insert, str_eq,
  Bool-cases, inl, inr, ◌⊎◌,
}
use pv_inverter_master.Updater.RateLimit.{
  RateLimiter, evict, is_over, decide, check, normalize_ip, retry_after,
}
use pv_inverter_master.Updater.RateLimit.Eviction.{
  IsDict, insert-IsDict, unless_over, lookup-evict, evict-IsDict,
}

-- The last accepted request of each client.
abbrev pub Seen : Type 0
Seen = String → Option ℕ

abbrev pub nobody : Seen
nobody k = none

abbrev pub note : String → ℕ → Seen → Seen
note k now f j = if str_eq k j then some now else f j

abbrev spec_decide : Option ℕ → ℕ → String → ℕ → Seen → (Bool × ℕ) × Seen
spec_decide none window k now f = ((true, 0), note k now f)
spec_decide (some last) window k now f = ((false, retry_after window now last), f)

-- A request is accepted exactly if the client's last accepted one is a window away, or there is none.
unfoldable pub spec_check : ℕ → ℕ → Option String → Seen → (Bool × ℕ) × Seen
spec_check window now ip f =
    let k = normalize_ip ip in spec_decide (unless_over window now (f k)) window k now f

-- The requests of a run, each with its time and its client, and the answers to them.
unfoldable pub answers : List (ℕ × Option String) → RateLimiter → List (Bool × ℕ)
answers [] l = []
answers ((now, ip) ∷ rs) l = (check now ip l).0 ∷ answers rs (check now ip l).1

unfoldable pub spec_answers : ℕ → List (ℕ × Option String) → Seen → List (Bool × ℕ)
spec_answers window [] f = []
spec_answers window ((now, ip) ∷ rs) f =
    (spec_check window now ip f).0 ∷ spec_answers window rs (spec_check window now ip f).1

-- The times do not run backwards.
abbrev pub IsOrdered : ℕ → List (ℕ × Option String) → Type 0
IsOrdered t [] = Unit
IsOrdered t ((now, ip) ∷ rs) = (t ≤ now) × IsOrdered now rs

-- The table and the full record agree on what is not older than a window at time t.
record Agrees (window t : ℕ) (d : Dict ℕ) (f : Seen) : Type 0 where
  is_dict : IsDict d
  same : (k : String) → unless_over window t (lookup k d) ≡ unless_over window t (f k)

unless_over-later :
    (window t now : ℕ) (o : Option ℕ)
    → t ≤ now
    → unless_over window now (unless_over window t o) ≡ unless_over window now o
unless_over-later window t now none h = refl
unless_over-later window t now (some u) h = ground arith

Agrees-later :
    {window t now : ℕ} {d : Dict ℕ} {f : Seen}
    → t ≤ now
    → Agrees window t d f
    → Agrees window now d f
Agrees-later {window} {t} {now} {d} {f} h a = record {
  is_dict = a.is_dict;
  same = λ k.
      sym (unless_over-later window t now (lookup k d) h)
      ∙ ap (unless_over window now) (a.same k)
      ∙ unless_over-later window t now (f k) h;
}

Agrees-evict :
    {window now : ℕ} {d : Dict ℕ} {f : Seen}
    → Agrees window now d f
    → Agrees window now (evict window now d) f
Agrees-evict {window} {now} {d} {f} a = record {
  is_dict = evict-IsDict window now d a.is_dict;
  same = λ k.
      ap (unless_over window now) (lookup-evict window now k d a.is_dict)
      ∙ unless_over-later window now now (lookup k d) (omega arith)
      ∙ a.same k;
}

Agrees-note :
    {window now : ℕ} {d : Dict ℕ} {f : Seen} (k : String)
    → Agrees window now d f
    → Agrees window now (insert k now d) (note k now f)
Agrees-note {window} {now} {d} {f} k a = record {
  is_dict = insert-IsDict k now d a.is_dict;
  same = λ j.
      rw lookup-insert (elim (Bool-cases (str_eq k j)) [ inl e ↦ rw e | inr e ↦ rw e (a.same j) ]);
}

-- One check answers as the full record does, and leaves a table that agrees with it.
record Refines (window now : ℕ) (p : (Bool × ℕ) × RateLimiter) (q : (Bool × ℕ) × Seen)
    : Type 0 where
  answer : p.0 ≡ q.0
  window_kept : p.1.window ≡ window
  agrees : Agrees window now p.1.last_seen q.1

decide-Refines :
    (o : Option ℕ) (window now : ℕ) (k : String) (d : Dict ℕ) (f : Seen)
    → unless_over window now o ≡ o
    → Agrees window now d f
    → Refines window now
        (decide o k now (record { window = window; last_seen = d }))
        (spec_decide o window k now f)
unfolding decide
decide-Refines none window now k d f h a = record {
  answer = refl;
  window_kept = refl;
  agrees = Agrees-note k a;
}
decide-Refines (some last) window now k d f h a = elim (Bool-cases (is_over window now last)) [
  | inl over ↦ absurd (ground arith)
  | inr fresh ↦ rw fresh (record { answer = refl; window_kept = refl; agrees = a })
]

check-Refines :
    (now : ℕ) (ip : Option String) (l : RateLimiter) (f : Seen)
    → Agrees l.window now l.last_seen f
    → Refines l.window now (check now ip l) (spec_check l.window now ip f)
unfolding check spec_check
check-Refines now ip l f a =
    let k : String = normalize_ip ip in
    let kept : Dict ℕ = evict l.window now l.last_seen in
    rw (lookup-evict l.window now k l.last_seen a.is_dict, a.same k)
      (decide-Refines (unless_over l.window now (f k)) l.window now k kept f
        (unless_over-later l.window now now (f k) (omega arith)) (Agrees-evict a))

check-Refines_at :
    (window now : ℕ) (ip : Option String) (l : RateLimiter) (f : Seen)
    → l.window ≡ window
    → Agrees window now l.last_seen f
    → Refines window now (check now ip l) (spec_check window now ip f)
check-Refines_at window now ip l f e =
    subst (λ w. Agrees w now l.last_seen f → Refines w now (check now ip l) (spec_check w now ip f))
      e (check-Refines now ip l f)

answers-spec :
    (window t : ℕ) (rs : List (ℕ × Option String)) (l : RateLimiter) (f : Seen)
    → l.window ≡ window
    → IsOrdered t rs
    → Agrees window t l.last_seen f
    → answers rs l ≡ spec_answers window rs f
unfolding answers spec_answers
answers-spec window t [] l f w o a = refl
answers-spec window t ((now, ip) ∷ rs) l f w o a =
    let r = check-Refines_at window now ip l f w (Agrees-later o.0 a) in
    let rest =
      answers-spec window now rs (check now ip l).1 (spec_check window now ip f).1 r.window_kept o.1
        r.agrees in
    cc (r.answer, rest)

-- Over every sequence of requests in time order, a new limiter gives the answers of the limiter that
-- forgets nothing: evicting stale clients is not observable.
pub answers-eq-spec_answers :
    (window : ℕ) (rs : List (ℕ × Option String))
    → IsOrdered 0 rs
    → answers rs (record { window = window; last_seen = [] }) ≡ spec_answers window rs nobody
unfolding lookup
answers-eq-spec_answers window rs h =
    answers-spec window 0 rs (record { window = window; last_seen = [] }) nobody refl h
      (record { is_dict = tt; same = λ k. refl })

-- A refused request is told to wait at least one second and, for a window of at least one, at most
-- the window. Waiting exactly that long is enough if and only if the time that was left is under a
-- second or a whole number of seconds.
pub retry_after_bounds :
    (window now last : ℕ)
    → last ≤ now
    → is_over window now last ≡ false
    → let wait = retry_after window now last in
      let left = window - (now - last) in
      (1 ≤ wait)
      × (1000 ≤ window → wait * 1000 ≤ window)
      × (is_over window (now + wait * 1000) last ≡ true → (left < 1000) ⊎ (left % 1000 ≡ 0))
      × ((left < 1000) ⊎ (left % 1000 ≡ 0) → is_over window (now + wait * 1000) last ≡ true)
retry_after_bounds window now last h r =
    (omega arith, λ big. ground arith, λ over. ground arith, λ whole. ground arith)
