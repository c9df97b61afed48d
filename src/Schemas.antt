-- ===== src/Schemas.antt =====
-- app/schemas/: the payloads of the API and their validation.
pub mod Catalog
pub mod Movement
