-- ===== src/Watchdog.antt =====
-- The watchdog, which turns results into alerts: watchdog/.
pub mod Alerting
pub mod Monitoring
