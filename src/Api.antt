-- ===== src/Api.antt =====
-- The API server: apps/api/src.
pub mod Session
pub mod Auth
pub mod Billing
pub mod Orgs
pub mod Guards
pub mod Access
pub mod Pools
pub mod Datarooms
pub mod Documents
pub mod Reviews
pub mod Checklist
pub mod Notifications
pub mod Audit
