-- ===== src/Tcts.antt =====
-- The projection of reported tokens, src/lib/tcts/monitor.ts.
pub mod Read
pub mod Parse
pub mod Observe
pub mod Store
pub mod Descend
pub mod Revoke
pub mod Reports
pub mod Synthetic
mod Tests
