-- ===== src/Notify.antt =====
-- notify/: what the service tells its administrator.
pub mod Alerts
pub mod Monitor
mod Examples
pub mod Heartbeat
