-- ===== src/Indexer.antt =====
-- The indexer: apps/indexer/src. It mirrors the events of the chain into the database.
pub mod Handlers
pub mod Loop
pub mod Audit
pub mod Replay
pub mod Cursor
pub mod Membership
