-- ===== src/Webapp/Update/Stuck.antt =====
-- A start whose trigger cannot be written.
use mathlib.Core.Path.{subst}
use pv_inverter_master.Base.{ℕ, ◌≡◌, ap, ◌∙◌, true, some, List, length, ◌++◌}
use pv_inverter_master.Context.{AppContext, enter_maintenance_mode}
use pv_inverter_master.Control.{Clock, is_model_123_address}
use pv_inverter_master.Proxy.{Slave, detect, busy, handle_write}
use pv_inverter_master.Proxy.Gate.{maintenance_refuses}
use pv_inverter_master.Webapp.Update.{
  Site, Request, write_failed, update_start_handler, entered, reached,
}
use pv_inverter_master.Webapp.Update.Settled.{IsSettled}
use pv_inverter_master.Webapp.Update.Accepted.{IsAsked, update_start_handler-IsSettled}

-- A start that is answered 500 as its trigger cannot be written has told the clients of an update and
-- leaves maintenance mode on: a write of Venus OS that touches Model 123, and meets the context as the
-- handler left it, is answered DEVICE_BUSY and changes nothing but the detection of Venus OS.
pub failed_start_blocks :
    (q : Request) (s : Site) (a : AppContext) (now : Clock) (address : ℕ) (values : List ℕ)
    (slave : Slave)
    → (update_start_handler q s).1 ≡ write_failed
    → s.app_ctx ≡ some a
    → is_model_123_address address (length values) ≡ true
    → let s' = (update_start_handler q s).0 in
      (s'.notified ≡ s.notified ++ reached s.clients)
      × (handle_write now address values (record slave { app = s'.app_ctx })
          ≡ (record slave { app = detect true now (some (enter_maintenance_mode q.wall a)) }, busy))
failed_start_blocks q s a now address values slave e here hit =
    let (p, asked, adm, told, file) =
      subst (IsSettled (IsAsked q) q s (update_start_handler q s).0) e
        (update_start_handler-IsSettled q s) in
    let shown = told.0 ∙ ap (entered q.wall) here in
    (
      told.1,
      ap (λ o. handle_write now address values (record slave { app = o })) shown
          ∙ maintenance_refuses now q.wall address values a slave hit,
    )
