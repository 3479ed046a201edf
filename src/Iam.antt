-- ===== src/Iam.antt =====
-- services/iam: tenants, users, their tokens, and the administration of the platform.
pub mod Db
pub mod Auth
pub mod Admin
mod Tests
