-- ===== src/Distributor/Poll/Response.antt =====
-- From a limit to the measurement of its response time.
use mathlib.Core.Path.{subst}
use pv_inverter_master.Base.{
  ℕ, ◌-◌, ◌*◌, ◌≡◌, refl, sym, ap, ◌∙◌, true, false, not, ◌&&◌, Option, none, some, List, [], ◌∷◌,
  ◌++◌, arith, ltb, if◌then◌else◌, All, map,
}
use pv_inverter_master.Distributor.Device.{Device, is_binary_device, is_in_startup}
use pv_inverter_master.Distributor.Commands.{
  done, is_same_target, is_within, record_target, send_limit, settle_limit,
}
use pv_inverter_master.Distributor.Poll.{converged, on_poll, poll_target, settle_target, trimmed}
use pv_inverter_master.Distributor.Poll.Sampled.{Event, limited, polled, step, run}

-- A poll, with its time and the power it reads.
pub record Reading : Type 0 where
  pub at : ℕ
  pub actual : ℕ

abbrev pub poll : Reading → Event
poll r = polled r.at r.actual

abbrev pub Misses : ℕ → Reading → Type 0
Misses target r = converged target r.actual ≡ false

-- The device that waits for a target since a time.
abbrev Waits : ℕ → ℕ → Device → Type 0
Waits target since d =
    (is_binary_device d ≡ false) × (d.target_power ≡ some target) × (d.target_set ≡ some since)

never_starting : (now : ℕ) (d : Device) → is_binary_device d ≡ false → is_in_startup now d ≡ false
unfolding is_in_startup
never_starting now d h = rw h refl

polled_as :
    (a b : Option ℕ) (r : Reading) (d : Device)
    → d.target_power ≡ a
    → d.target_set ≡ b
    → step (poll r) d ≡ poll_target a b r.at r.actual d
unfolding step on_poll
polled_as a b r d p q =
    ap (λ o. poll_target o d.target_set r.at r.actual d) p
    ∙ ap (λ o. poll_target a o r.at r.actual d) q

running :
    (target since : ℕ) (r : Reading) (d : Device)
    → is_binary_device d ≡ false
    → poll_target (some target) (some since) r.at r.actual d
      ≡ (if converged target r.actual then settle_target r.at since d else d)
unfolding poll_target
running target since r d h = rw (never_starting r.at d h) refl

waiting :
    (target since : ℕ) (r : Reading) (d : Device)
    → Waits target since d
    → step (poll r) d ≡ (if converged target r.actual then settle_target r.at since d else d)
waiting target since r d w =
    polled_as (some target) (some since) r d w.1 w.2 ∙ running target since r d w.0

early_leave :
    (target since : ℕ) (rs : List Reading) (d : Device)
    → Waits target since d
    → All (Misses target) rs
    → run (map poll rs) d ≡ d
unfolding run
early_leave target since [] d w m = refl
early_leave target since (r ∷ rs) d w m =
    let here : step (poll r) d ≡ d = waiting target since r d w ∙ rw m.0 refl in
    ap (λ e. run (map poll rs) e) here ∙ early_leave target since rs d w m.1

idle_leaves : (rs : List Reading) (d : Device) → d.target_power ≡ none → run (map poll rs) d ≡ d
unfolding run poll_target
idle_leaves [] d h = refl
idle_leaves (r ∷ rs) d h =
    ap (λ e. run (map poll rs) e) (polled_as none d.target_set r d h refl) ∙ idle_leaves rs d h

-- The device right after a limit that found no target.
abbrev limited_at : ℕ → ℕ → Device → Device
limited_at t limit d = record d {
  current_limit = limit;
  last_write = some t;
  pending_limit = none;
  target_power = some (limit * d.entry.rated_power);
  target_set = some t;
}

targeted :
    (t limit : ℕ) (d : Device)
    → d.target_power ≡ none
    → settle_limit done t limit d ≡ limited_at t limit d
unfolding settle_limit record_target
targeted t limit d n =
    let new : ℕ = limit * d.entry.rated_power in
    let sent : Device = record d {
      current_limit = limit;
      last_write = some t;
      pending_limit = none;
    } in
    ap (λ o. if is_same_target o new then sent else limited_at t limit d) n

sent_at_once :
    (t limit : ℕ) (d : Device)
    → is_within d.last_write t d.entry.dead_time ≡ false
    → (send_limit t done limit true false d).0 ≡ settle_limit done t limit d
unfolding send_limit
sent_at_once t limit d over =
    let now_due : (not false
          && ltb 0 d.entry.dead_time
          && is_within d.last_write t d.entry.dead_time)
        ≡ false =
      ground (arith, over) in
    rw now_due refl

limited_targets :
    (t limit : ℕ) (d : Device)
    → d.target_power ≡ none
    → is_within d.last_write t d.entry.dead_time ≡ false
    → step (limited t done limit true false) d ≡ limited_at t limit d
unfolding step
limited_targets t limit d n over = sent_at_once t limit d over ∙ targeted t limit d n

-- A proportional device gets a limit while it has no target and no dead time runs. Whatever number of
-- polls miss the target, the first that meets it adds the time since the limit to the samples and ends
-- the target, and no later poll changes anything.
pub response_measured :
    (t limit : ℕ) (d : Device) (early : List Reading) (r : Reading) (late : List Reading)
    → is_binary_device d ≡ false
    → d.target_power ≡ none
    → is_within d.last_write t d.entry.dead_time ≡ false
    → All (Misses (limit * d.entry.rated_power)) early
    → converged (limit * d.entry.rated_power) r.actual ≡ true
    → let d1 = step (limited t done limit true false) d in
      let d2 = step (poll r) (run (map poll early) d1) in
      (d2.samples ≡ trimmed (d.samples ++ ((r.at - t) ∷ [])))
      × (d2.target_power ≡ none)
      × (run (map poll late) d2 ≡ d2)
unfolding settle_target is_binary_device
response_measured t limit d early r late h n over misses hit =
    let target : ℕ = limit * d.entry.rated_power in
    let start : Device = limited_at t limit d in
    let w : Waits target t start = (h, refl, refl) in
    let reached : step (poll r) (run (map poll early) (step (limited t done limit true false) d))
        ≡ settle_target r.at t start =
      ap (λ e. step (poll r) (run (map poll early) e)) (limited_targets t limit d n over)
      ∙ ap (λ e. step (poll r) e) (early_leave target t early start w misses)
      ∙ waiting target t r start w
      ∙ rw hit refl in
    subst
      (λ e.
        (e.samples ≡ trimmed (d.samples ++ ((r.at - t) ∷ [])))
        × (e.target_power ≡ none)
        × (run (map poll late) e ≡ e))
      (sym reached) (refl, refl, idle_leaves late (settle_target r.at t start) refl)
