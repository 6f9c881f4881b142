-- ===== src/Ingest.antt =====
-- The ingestion of reported events, POST /api/events (src/app/api/events/route.ts).
pub mod Values
pub mod Normalize
pub mod Items
pub mod Batch
pub mod Handler
mod Tests
