-- ===== src/Catalog.antt =====
-- The part of backend/internal/catalog that writes for the ingest panel.
pub mod Model
pub mod Slugs
pub mod Write
