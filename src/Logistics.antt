-- ===== src/Logistics.antt =====
-- services/logistics: inventory, help requests with configurable workflows, and dispatch.
pub mod Status
pub mod Workflow
pub mod FormSchema
pub mod Db
pub mod Inventory
pub mod Bodies
pub mod Categories
pub mod Requests
pub mod Intake
pub mod Dispatch
pub mod Replicas
mod Tests
mod FormTests
