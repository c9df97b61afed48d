-- ===== src/Services.antt =====
-- app/services/: the business rules, over the repositories.
pub mod Alert
pub mod Command
pub mod Product
pub mod Query
pub mod Report
pub mod Raised
pub mod Atomic
pub mod Warehouse
