-- ===== src/Distributor/Commands/Cooldown.antt =====
-- The relay of a binary device over a sequence of commands.
use mathlib.Core.Path.{subst}
use pv_inverter_master.Base.{
  ℕ, ◌+◌, ◌-◌, ◌≡◌, ◌⊎◌, refl, ◌≤◌, Bool, true, false, not, ◌&&◌, Option, none, some, List, [], ◌∷◌,
  arith, if◌then◌else◌, Bool-cases, inl, inr, sym, ◌∙◌,
}
use pv_inverter_master.Throttle.{ThrottleCaps}
use pv_inverter_master.Distributor.Device.{Device}
use pv_inverter_master.Distributor.Commands.{
  Answer, done, failed, raised, Command, record_target, is_within, same_bool, send_binary_command,
  settle_switch, switch, switch_with, startup_after,
}

-- A command to the relay, with its time and the plugin's answer.
pub record Order : Type 0 where
  pub at : ℕ
  pub on : Bool
  pub answer : Answer

abbrev pub after : Order → Device → Device
after o d = (send_binary_command o.at o.answer o.on false d).0

-- The times at which the relay changes.
unfoldable pub toggles : List Order → Device → List ℕ
toggles [] d = []
toggles (o ∷ os) d =
    let rest = toggles os (after o d) in
    if same_bool d.relay_on (after o d).relay_on then rest else o.at ∷ rest

-- Each time is at least `c` behind the one before it.
abbrev pub Spaced : ℕ → Option ℕ → List ℕ → Type 0
Spaced c last [] = Unit
Spaced c none (t ∷ ts) = Spaced c (some t) ts
Spaced c (some s) (t ∷ ts) = (c ≤ t - s) × Spaced c (some t) ts

record_target_leaves :
    (now limit : ℕ) (d : Device)
    → let d' = record_target now limit d in
      (d'.caps ≡ d.caps) × (d'.relay_on ≡ d.relay_on) × (d'.last_toggle ≡ d.last_toggle)
unfolding record_target
record_target_leaves now limit d = ground arith

-- One command: the relay stays with its last toggle, or it is toggled now, out of the cooldown.
abbrev Stepped : ℕ → ℕ → Device → Device → Type 0
Stepped c now d d' =
    (d'.caps ≡ d.caps)
    × ((d'.relay_on ≡ d.relay_on) × (d'.last_toggle ≡ d.last_toggle)
        ⊎ (d'.relay_on ≡ not d.relay_on)
          × (d'.last_toggle ≡ some now)
          × (is_within d.last_toggle now c ≡ false))

settle_switch-done :
    (now : ℕ) (on : Bool) (c : ThrottleCaps) (d : Device)
    → let d' = settle_switch done now on c d in
      (d'.caps ≡ d.caps) × (d'.relay_on ≡ on) × (d'.last_toggle ≡ some now)
unfolding settle_switch startup_after
settle_switch-done now true c d =
    record_target_leaves now 1000
      (record d { relay_on = true; last_toggle = some now; startup_until = now + c.startup_delay })
settle_switch-done now false c d =
    record_target_leaves now 0 (record d { relay_on = false; last_toggle = some now })

other_side : (a b : Bool) → same_bool a b ≡ false → b ≡ not a
other_side true false h = refl
other_side false true h = refl
other_side true true h = absurd (cc)
other_side false false h = absurd (cc)

settled :
    (answer : Answer) (now : ℕ) (on : Bool) (c : ThrottleCaps) (d : Device)
    → same_bool d.relay_on on ≡ false
    → is_within d.last_toggle now c.cooldown ≡ false
    → Stepped c.cooldown now d (settle_switch answer now on c d)
unfolding settle_switch
settled done now on c d h w =
    let s = settle_switch-done now on c d in (s.0, inr (s.1 ∙ other_side d.relay_on on h, s.2, w))
settled failed now on c d h w = (refl, inl (refl, refl))
settled raised now on c d h w = (refl, inl (refl, refl))

abbrev unless : Bool → Answer → ℕ → Bool → ThrottleCaps → Device → Device × List Command
unless cooling answer now on c d =
    if not false && cooling
    then (d, [])
    else (settle_switch answer now on c d, switch d.device_id on ∷ [])

switch_with-Stepped :
    (now : ℕ) (answer : Answer) (on : Bool) (c : ThrottleCaps) (d : Device)
    → same_bool d.relay_on on ≡ false
    → Stepped c.cooldown now d (switch_with (some c) now answer on false d).0
unfolding switch_with
switch_with-Stepped now answer on c d other =
    elim (Bool-cases (is_within d.last_toggle now c.cooldown)) [
      | inl cooling ↦
          subst (λ b. Stepped c.cooldown now d (unless b answer now on c d).0) (sym cooling)
            (refl, inl (refl, refl))
      | inr over ↦
          subst (λ b. Stepped c.cooldown now d (unless b answer now on c d).0) (sym over)
            (settled answer now on c d other over)
    ]

send_binary_command-Stepped :
    (now : ℕ) (answer : Answer) (on : Bool) (c : ThrottleCaps) (d : Device)
    → d.caps ≡ some c
    → Stepped c.cooldown now d (send_binary_command now answer on false d).0
unfolding send_binary_command
send_binary_command-Stepped now answer on c d e = elim (Bool-cases (same_bool d.relay_on on)) [
  | inl same ↦ rw same (refl, inl (refl, refl))
  | inr other ↦ rw other (
      subst (λ o. Stepped c.cooldown now d (switch_with o now answer on false d).0) (sym e)
        (switch_with-Stepped now answer on c d other))
]

same_self : (b : Bool) → same_bool b b ≡ true
same_self true = refl
same_self false = refl

not_same : (b : Bool) → same_bool b (not b) ≡ false
not_same true = refl
not_same false = refl

gap_before :
    (c t : ℕ) (last : Option ℕ) (ts : List ℕ)
    → is_within last t c ≡ false
    → Spaced c (some t) ts
    → Spaced c last (t ∷ ts)
gap_before c t none ts w h = h
gap_before c t (some s) ts w h = (ground arith, h)

-- Whatever is ordered when, and whether the plugin obeys or not: a relay that is never forced keeps at
-- least the cooldown between two changes, the change before the first order included.
pub toggles-Spaced :
    (os : List Order) (c : ThrottleCaps) (d : Device)
    → d.caps ≡ some c
    → Spaced c.cooldown d.last_toggle (toggles os d)
unfolding toggles
toggles-Spaced [] c d e = tt
toggles-Spaced (o ∷ os) c d e =
    let s = send_binary_command-Stepped o.at o.answer o.on c d e in
    let rest = toggles-Spaced os c (after o d) (s.0 ∙ e) in
    elim s.1 [
      | inl stayed ↦ rw (stayed.0, same_self d.relay_on) (rw stayed.1 at rest)
      | inr toggled ↦
          rw (toggled.0, not_same d.relay_on)
            (gap_before c.cooldown o.at d.last_toggle (toggles os (after o d)) toggled.2
              (rw toggled.1 at rest))
    ]
