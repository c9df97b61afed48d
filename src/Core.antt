-- ===== src/Core.antt =====
-- app/core/: what requests and tasks share.
pub mod Security
pub mod Cache
pub mod Config
pub mod Email
pub mod Scheduler
pub mod Middleware
