-- ===== src/Common.antt =====
-- packages/common, and what the three services with an outbox have in common.
pub mod Outbox
pub mod Relay
pub mod Auth
mod Tests
