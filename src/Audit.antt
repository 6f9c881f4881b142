-- ===== src/Audit.antt =====
-- What src/lib/audit keys an event by: the signed content of embedded artifacts, canonical JSON and
-- the event id made from it.
pub mod SignedContent
pub mod Signing
pub mod Canonical
pub mod EventId
mod Tests
