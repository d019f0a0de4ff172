-- ===== src/Monitoring.antt =====
-- internal/monitoring: alerts and their notification.
pub mod Alerts
