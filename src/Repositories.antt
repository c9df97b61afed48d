-- ===== src/Repositories.antt =====
-- app/repositories/: the queries and the flushes that the services make.
pub mod Base
pub mod Inventories
pub mod Alerts
pub mod Catalog
pub mod Keyed
pub mod Movements
pub mod Users
pub mod Raised
pub mod Quiet
