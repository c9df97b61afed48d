-- ===== src/Tasks.antt =====
-- app/tasks/: the periodic work.
pub mod Alerts
pub mod Monitoring
pub mod Reports
pub mod Notifications
