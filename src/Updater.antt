-- ===== src/Updater.antt =====
-- The update subsystem: src/pv_inverter_proxy/updater (the web application's side) and
-- src/pv_inverter_proxy/updater_root (the privileged helper).
pub mod Texts
pub mod RateLimit
pub mod Csrf
pub mod Status
pub mod Nonces
pub mod Trigger
pub mod Phase
pub mod Exec
pub mod Runner
pub mod Health
pub mod Progress
pub mod TriggerWriter
pub mod Version
pub mod Config
pub mod Scheduler
pub mod Github
mod Tests
