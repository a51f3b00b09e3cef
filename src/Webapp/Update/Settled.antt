-- ===== src/Webapp/Update/Settled.antt =====
-- What each answer of the update handlers means, for the parts that they share.
use pv_inverter_master.Base.{
  ℕ, ◌≡◌, refl, ap, String, Bool, true, false, Option, none, some, ◌++◌, Bool-cases, inl, inr, ◌⊎◌,
}
use pv_inverter_master.Json.{object}
use pv_inverter_master.Updater.Exec.{Written, written, unwritten, mode_unset}
use pv_inverter_master.Updater.RateLimit.{RateLimiter, check}
use pv_inverter_master.Updater.Status.{is_update_running}
use pv_inverter_master.Updater.Trigger.{Body, json}
use pv_inverter_master.Updater.TriggerWriter.{
  TriggerPayload, validate, fields_of, write_payload, write_trigger,
}
use pv_inverter_master.Webapp.Update.{
  Site, Request, Response, rate_limited, update_in_progress, invalid, accepted, write_failed,
  crashed, log_and_respond, broadcast_update_in_progress, audit, entered, announce, answer_write,
  hand_over, guarded, refuse_running, reached, settle_write,
}

-- Nothing but the limiter and the audit log differs.
pub record Untouched (s s' : Site) : Type 0 where
  pub trigger_same : s'.trigger_file ≡ s.trigger_file
  pub app_same : s'.app_ctx ≡ s.app_ctx
  pub clients_same : s'.clients ≡ s.clients
  pub notified_same : s'.notified ≡ s.notified

log-Untouched :
    (o : Option String) (r : Response) (q : Request) (s s' : Site)
    → Untouched s s'
    → Untouched s (log_and_respond o r q s').0
unfolding log_and_respond audit
log-Untouched none r q s s' u = u
log-Untouched (some o) r q s s' u = elim (Bool-cases q.auditable) [
  | inl on ↦ rw on (record {
    trigger_same = u.trigger_same;
    app_same = u.app_same;
    clients_same = u.clients_same;
    notified_same = u.notified_same;
  })
  | inr off ↦ rw off u
]

log-answer :
    (o : Option String) (r : Response) (q : Request) (s : Site) → (log_and_respond o r q s).1 ≡ r
unfolding log_and_respond
log-answer none r q s = refl
log-answer (some o) r q s = refl

-- The limiter accepts the request, and no update runs.
abbrev pub IsAdmitted : Request → Site → Type 0
IsAdmitted q s =
    ((check q.mono q.remote s.limiter).0.0 ≡ true) × ((is_update_running s.status_file).0 ≡ false)

-- Maintenance mode is entered and the clients are told.
abbrev pub IsAnnounced : Request → Site → Site → Type 0
IsAnnounced q s s' =
    (s'.app_ctx ≡ entered q.wall s.app_ctx) × (s'.notified ≡ s.notified ++ reached s.clients)

-- The trigger file of an answer 500: the old one, or the new one with the wrong mode.
abbrev pub IsFailed : Request → Site → Site → TriggerPayload → Type 0
IsFailed q s s' p =
    ((q.written ≡ unwritten) × (s'.trigger_file ≡ s.trigger_file))
    ⊎ ((q.written ≡ mode_unset) × (s'.trigger_file ≡ json (object (fields_of p))))

-- What each answer means, where `Asked` says which payload the request asks for.
abbrev pub IsSettled : (TriggerPayload → Type 0) → Request → Site → Site → Response → Type 0
IsSettled Asked q s s' (accepted n) =
    (p : TriggerPayload) × Asked p
    × (n ≡ p.nonce)
    × (validate p ≡ true)
    × IsAdmitted q s
    × IsAnnounced q s s'
    × (s'.trigger_file ≡ json (object (fields_of p)))
IsSettled Asked q s s' write_failed =
    (p : TriggerPayload) × Asked p × IsAdmitted q s × IsAnnounced q s s' × IsFailed q s s' p
IsSettled Asked q s s' (rate_limited n) =
    Untouched s s' × ((check q.mono q.remote s.limiter).0 ≡ (false, n))
IsSettled Asked q s s' (update_in_progress phase) =
    Untouched s s'
    × (is_update_running s.status_file ≡ (true, phase))
    × ((check q.mono q.remote s.limiter).0.0 ≡ true)
IsSettled Asked q s s' invalid = Untouched s s' × IsAdmitted q s
IsSettled Asked q s s' crashed = ⊥

module _ (Asked : TriggerPayload → Type 0) (q : Request) (s : Site) where
  -- The log changes nothing that the answers are about.
  pub log-IsSettled :
      (o : Option String) (r : Response) (s' : Site)
      → IsSettled Asked q s s' r
      → IsSettled Asked q s (log_and_respond o r q s').0 (log_and_respond o r q s').1
  unfolding log_and_respond audit
  log-IsSettled none r s' h = h
  log-IsSettled (some o) (rate_limited n) s' h =
      (log-Untouched (some o) (rate_limited n) q s s' h.0, h.1)
  log-IsSettled (some o) (update_in_progress n) s' h =
      (log-Untouched (some o) invalid q s s' h.0, h.1, h.2)
  log-IsSettled (some o) invalid s' h = (log-Untouched (some o) invalid q s s' h.0, h.1)
  log-IsSettled (some o) (accepted n) s' h = elim (Bool-cases q.auditable) [
    | inl on ↦ rw on h
    | inr off ↦ rw off h
  ]
  log-IsSettled (some o) write_failed s' h = elim (Bool-cases q.auditable) [
    | inl on ↦ rw on h
    | inr off ↦ rw off h
  ]
  log-IsSettled (some o) crashed s' h = absurd h

  announced :
      (s' : Site) (file : Body)
      → Untouched s s'
      → IsAnnounced q s (record (announce q s') { trigger_file = file })
  unfolding announce broadcast_update_in_progress
  announced s' file u = (ap (entered q.wall) u.app_same, rw (u.notified_same, u.clients_same) refl)

  -- From a site that differs from the first in the limiter and the audit log only.
  settle_write-IsSettled :
      (p : TriggerPayload) (w : Written) (s' : Site)
      → q.written ≡ w
      → Asked p
      → validate p ≡ true
      → IsAdmitted q s
      → Untouched s s'
      → let after = settle_write (write_payload w p s'.trigger_file) p q (announce q s') in
        IsSettled Asked q s after.0 after.1
  unfolding settle_write write_payload answer_write
  settle_write-IsSettled p written s' e asked valid adm u =
      let file = json (object (fields_of p)) in
      log-IsSettled (some "accepted") (accepted p.nonce)
        (record (announce q s') { trigger_file = file })
        (p, asked, refl, valid, adm, announced s' file u, refl)
  settle_write-IsSettled p unwritten s' e asked valid adm u =
      let file = s'.trigger_file in
      log-IsSettled (some "500_trigger_write_failed") write_failed
        (record (announce q s') { trigger_file = file })
        (p, asked, adm, announced s' file u, inl (e, u.trigger_same))
  settle_write-IsSettled p mode_unset s' e asked valid adm u =
      let file = json (object (fields_of p)) in
      log-IsSettled (some "500_trigger_write_failed") write_failed
        (record (announce q s') { trigger_file = file })
        (p, asked, adm, announced s' file u, inr (e, refl))

  pub hand_over-IsSettled :
      (p : TriggerPayload) (s' : Site)
      → Asked p
      → validate p ≡ true
      → IsAdmitted q s
      → Untouched s s'
      → IsSettled Asked q s (hand_over p q (announce q s')).0 (hand_over p q (announce q s')).1
  unfolding hand_over write_trigger announce broadcast_update_in_progress
  hand_over-IsSettled p s' asked valid adm u =
      rw valid (settle_write-IsSettled p q.written s' refl asked valid adm u)

  -- The guards: what is behind them runs on an admitted request.
  pub guarded-IsSettled :
      (next : Request → Site → Site × Response)
      → ((s' : Site)
          → IsAdmitted q s
          → Untouched s s'
          → IsSettled Asked q s (next q s').0 (next q s').1)
      → let after = guarded (check q.mono q.remote s.limiter) next q s in
        IsSettled Asked q s after.0 after.1
  guarded-IsSettled next k = on_limit (check q.mono q.remote s.limiter) refl
    where
      on_running :
          (b : Bool × String) (l : RateLimiter)
          → is_update_running s.status_file ≡ b
          → (check q.mono q.remote s.limiter).0.0 ≡ true
          → let after = refuse_running b next q (record s { limiter = l }) in
            IsSettled Asked q s after.0 after.1
      on_running (true, phase) l e ok =
          log-IsSettled (some "409_conflict") (update_in_progress phase) (record s { limiter = l })
            (
              record {
                trigger_same = refl;
                app_same = refl;
                clients_same = refl;
                notified_same = refl;
              },
              e,
              ok,
            )
      on_running (false, phase) l e ok =
          k (record s { limiter = l }) (ok, ap (λ b. b.0) e)
            (record {
              trigger_same = refl;
              app_same = refl;
              clients_same = refl;
              notified_same = refl;
            })

      on_limit :
          (c : (Bool × ℕ) × RateLimiter)
          → check q.mono q.remote s.limiter ≡ c
          → let after = guarded c next q s in IsSettled Asked q s after.0 after.1
      on_limit ((true, n), l) e =
          on_running (is_update_running s.status_file) l refl (ap (λ b. b.0.0) e)
      on_limit ((false, n), l) e =
          log-IsSettled (some "429_rate_limited") (rate_limited n) (record s { limiter = l })
            (
              record {
                trigger_same = refl;
                app_same = refl;
                clients_same = refl;
                notified_same = refl;
              },
              ap (λ b. b.0) e,
            )
