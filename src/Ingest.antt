-- ===== src/Ingest.antt =====
-- Content production: backend/internal/ingest, from the upload of a book to its narrated edition.
pub mod Model
pub mod Uploads
pub mod Submit
pub mod Dispatch
pub mod Narration
mod Tests
