-- ===== src/Tests.antt =====
-- Runs of the theorems at concrete inputs.
pub mod Blobs
pub mod Crypto
pub mod Shared
pub mod Walrus
pub mod Indexer
pub mod Api
pub mod Orgs
pub mod Services
pub mod Clients
