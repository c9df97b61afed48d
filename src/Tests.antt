-- ===== src/Tests.antt =====
-- Runs on small inputs, and the instances of the theorems at concrete inputs.
mod Samples
mod Command
mod Locking
mod Catalog
mod Alerts
mod Sockets
mod Sweep
mod Query
mod Publisher
mod Texts
mod Relay
mod Reports
mod Access
mod Routes
mod Cache
mod Middleware
mod Notifications
