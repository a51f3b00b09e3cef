-- ===== src/Control/Storage/Recovery.antt =====
-- What a restart brings back of the control state.
use pv_inverter_master.Base.{
  ℕ, ◌+◌, ◌≤◌, ◌<◌, ◌≡◌, refl, false, Option, none, arith, String, lookup-insert,
  lookup-insert_self, ℤ, str_eq,
}
use pv_inverter_master.Control.{ControlState, venus_os, Clock, device_clamp}
use pv_inverter_master.Control.Storage
use pv_inverter_master.Control.Storage.{Disk, complete, overwrite}

-- The lock that a restart brings back does not depend on the deadline of the lock that was saved:
-- a permanent one becomes a lock of at most 900 s, and a short one may be prolonged.
pub boot_forgets_deadline :
    (t now : Clock) (c : ControlState) (d : Disk) (deadline : Option ℕ)
    → Storage.boot (Storage.save_ui_state t (record c { lock_expires_at = deadline }) d) now
      ≡ Storage.boot (Storage.save_ui_state t c d) now
unfolding Storage.boot Storage.save_ui_state
boot_forgets_deadline t now c d deadline = refl

-- After a Venus OS limit was saved, a restart brings it back exactly while it is younger than five
-- minutes; after that the web application's limit of the UI state stands.
pub boot-save_last_limit :
    (t now : Clock) (c : ControlState) (d : Disk)
    → d.last_limit_write ≡ complete
    → c.last_source ≡ venus_os
    → let b = Storage.boot (Storage.save_last_limit t c d) now in
      (now.wall < t.wall + 300000
        → (b.wmaxlimpct_raw ≡ c.wmaxlimpct_raw)
          × (b.wmaxlim_ena ≡ 1)
          × (b.last_source ≡ venus_os)
          × (b.last_change_ts ≡ t.wall))
      × (t.wall + 300000 ≤ now.wall → b ≡ Storage.boot (record d { last_limit = none }) now)
unfolding Storage.boot Storage.save_last_limit overwrite
boot-save_last_limit t now c d w v = ground arith

-- A clamp that was set is the one that is read, for that device; every other device's is unchanged.
pub get_device_clamp-set_device_clamp :
    (id other : String) (lo hi : ℤ) (t now : Clock) (c : ControlState) (d : Disk)
    → let s = Storage.set_device_clamp id lo hi t c d in
      ((Storage.get_device_clamp id now s.0 s.1).0 ≡ device_clamp lo hi)
      × (str_eq id other ≡ false
          → (Storage.get_device_clamp other now s.0 s.1).0
            ≡ (Storage.get_device_clamp other now c d).0)
unfolding Storage.set_device_clamp Storage.get_device_clamp
get_device_clamp-set_device_clamp id other lo hi t now c d = ground (
  arith,
  lookup-insert_self id (device_clamp lo hi) c.device_clamps,
  lookup-insert id other (device_clamp lo hi) c.device_clamps,
)
