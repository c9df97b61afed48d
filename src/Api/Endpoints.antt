-- ===== src/Api/Endpoints.antt =====
-- app/api/v1/endpoints/: the routes over HTTP. A read schema is a copy of its row, so the rows
-- themselves stand for what is sent.
pub mod Products
pub mod Warehouses
pub mod Inventories
pub mod Movements
pub mod Alerts
pub mod Reports
pub mod Health
