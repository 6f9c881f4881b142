-- ===== src/Webhooks.antt =====
-- Webhook subscriptions and the delivery outbox, src/lib/webhooks/service.ts.
pub mod Addresses
pub mod Rows
pub mod Signing
pub mod Dispatch
pub mod World
pub mod Attempt
pub mod Outbox
pub mod Retries
pub mod Samples
mod Tests
