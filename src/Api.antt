-- ===== src/Api.antt =====
-- app/api/: what stands between HTTP and the services.
pub mod Deps
pub mod Endpoints
pub mod Routes
