-- ===== src/Distributor/Commands/DeadTime.antt =====
-- Limits that arrive within the dead time of a device.
use pv_inverter_master.Base.{
  ℕ, ◌-◌, ◌≡◌, ◌≢◌, refl, ◌≤◌, ◌<◌, Bool, true, false, not, ◌&&◌, none, some, List, [], ◌∷◌, ◌++◌,
  arith, ltb, if◌then◌else◌,
}
use pv_inverter_master.Distributor.Device.{Device}
use pv_inverter_master.Distributor.Commands.{
  Answer, done, failed, raised, Command, write_power_limit, record_target, settle_limit, send_limit,
  flush_pending, flush_limit,
}

-- Limits that arrive one after the other, each at its time and with the plugin's answer.
pub record Request : Type 0 where
  pub at : ℕ
  pub limit : ℕ
  pub answer : Answer

unfoldable pub send_all : List Request → Device → Device × List Command
send_all [] d = (d, [])
send_all (r ∷ rs) d =
    let (d', sent) = send_limit r.at r.answer r.limit true false d in
    let (e, rest) = send_all rs d' in (e, sent ++ rest)

abbrev pub last_of : ℕ → List Request → ℕ
last_of limit [] = limit
last_of limit (r ∷ rs) = last_of r.limit rs

-- All of them come before the dead time after a write at `t` has passed.
abbrev pub AllWithin : ℕ → ℕ → List Request → Type 0
AllWithin t dead [] = Unit
AllWithin t dead (r ∷ rs) = (r.at - t < dead) × AllWithin t dead rs

abbrev pub buffer : ℕ → Device → Device
buffer limit d = record d { pending_limit = some limit }

send_limit-within :
    (now limit t : ℕ) (answer : Answer) (d : Device)
    → d.last_write ≡ some t
    → now - t < d.entry.dead_time
    → send_limit now answer limit true false d ≡ (buffer limit d, [])
unfolding send_limit
send_limit-within now limit t answer d w h =
    let timed : ltb 0 d.entry.dead_time ≡ true = ground arith in
    let within : ltb (now - t) d.entry.dead_time ≡ true = ground arith in rw (timed, w, within)

send_all-buffered :
    (r : Request) (rs : List Request) (d : Device) (t : ℕ)
    → d.last_write ≡ some t
    → AllWithin t d.entry.dead_time (r ∷ rs)
    → send_all (r ∷ rs) d ≡ (buffer (last_of r.limit rs) d, [])
unfolding send_all
send_all-buffered r [] d t w h = rw (send_limit-within r.at r.limit t r.answer d w h.0)
send_all-buffered r (q ∷ rs) d t w h =
    rw (send_limit-within r.at r.limit t r.answer d w h.0)
      (send_all-buffered q rs (buffer r.limit d) t w h.1)

record_target_keeps :
    (now limit : ℕ) (d : Device)
    → let d' = record_target now limit d in
      (d'.current_limit ≡ d.current_limit)
      × (d'.pending_limit ≡ d.pending_limit)
      × (d'.last_write ≡ d.last_write)
unfolding record_target
record_target_keeps now limit d = ground arith

if_same : {A : Type 0} (b : Bool) (x y : A) → (if not false && b && false then x else y) ≡ y
if_same true x y = refl
if_same false x y = refl

flush_pending-after :
    (now limit t : ℕ) (answer : Answer) (enable : Bool) (d : Device)
    → d.last_write ≡ some t
    → d.pending_limit ≡ some limit
    → d.entry.dead_time ≤ now - t
    → flush_pending now answer enable d ≡ (
      settle_limit answer now limit (record d { pending_limit = none }),
      write_power_limit d.device_id enable limit false ∷ [],
    )
unfolding flush_pending send_limit flush_limit
flush_pending-after now limit t answer enable d w p h =
    let over : ltb (now - t) d.entry.dead_time ≡ false = ground arith in
    rw (p, w, over) (if_same (ltb 0 d.entry.dead_time) _ _)

-- Of the limits that arrive within the dead time after a write, none is sent at once. The flush after
-- the dead time sends exactly the last of them, and, if the plugin succeeds, it is then the current
-- limit and nothing is pending.
pub latest_wins :
    (r : Request) (rs : List Request) (d : Device) (t now : ℕ) (enable : Bool)
    → d.last_write ≡ some t
    → AllWithin t d.entry.dead_time (r ∷ rs)
    → d.entry.dead_time ≤ now - t
    → let (d', sent) = send_all (r ∷ rs) d in
      let (e, flushed) = flush_pending now done enable d' in
      (sent ≡ [])
      × (flushed ≡ write_power_limit d.device_id enable (last_of r.limit rs) false ∷ [])
      × (e.current_limit ≡ last_of r.limit rs)
      × (e.pending_limit ≡ none)
      × (e.last_write ≡ some now)
unfolding settle_limit
latest_wins r rs d t now enable w h over =
    let l : ℕ = last_of r.limit rs in
    let sent = send_all-buffered r rs d t w h in
    let flushed = flush_pending-after now l t done enable (buffer l d) w refl over in
    let kept =
      record_target_keeps now l
        (record d { current_limit = l; last_write = some now; pending_limit = none }) in
    rw (sent, flushed) (refl, refl, kept.0, kept.1, kept.2)

-- A flush that the plugin refuses, or at which it raises, forgets the pending limit: it is no longer
-- pending, and the current limit stays.
pub failed_flush_forgets :
    (limit t now : ℕ) (answer : Answer) (enable : Bool) (d : Device)
    → d.pending_limit ≡ some limit
    → d.last_write ≡ some t
    → d.entry.dead_time ≤ now - t
    → answer ≢ done
    → let (d', sent) = flush_pending now answer enable d in
      (sent ≡ write_power_limit d.device_id enable limit false ∷ [])
      × (d'.pending_limit ≡ none)
      × (d'.current_limit ≡ d.current_limit)
unfolding settle_limit
failed_flush_forgets limit t now answer enable d p w over bad =
    rw (flush_pending-after now limit t answer enable d w p over)
      (refl, (unsettled answer bad).0, (unsettled answer bad).1)
  where
    unsettled :
        (a : Answer)
        → a ≢ done
        → let d' = settle_limit a now limit (record d { pending_limit = none }) in
          (d'.pending_limit ≡ none) × (d'.current_limit ≡ d.current_limit)
    unsettled done n = absurd (n refl)
    unsettled failed n = (refl, refl)
    unsettled raised n = (refl, refl)
