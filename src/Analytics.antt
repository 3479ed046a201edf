-- ===== src/Analytics.antt =====
-- services/analytics: the read models that are kept from the events of services/logistics.
pub mod Upsert
pub mod Projections
mod Tests
