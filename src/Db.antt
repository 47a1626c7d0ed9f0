-- ===== src/Db.antt =====
-- The database that the indexer writes: packages/db/src/schema and packages/db/src/repositories.
-- A table is the list of its rows, the newest first; a row id is drawn from a counter; texts,
-- addresses, digests and times are numbers. The constraints of the schema are tested by the
-- operations; a statement that a constraint refuses changes nothing.
pub mod Tables
pub mod Chain
pub mod AuditLog
pub mod Lookup
pub mod Listing
