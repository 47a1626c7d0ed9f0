-- ===== src/Walrus.antt =====
-- The Walrus blob-storage client: packages/walrus-sdk/src.
pub mod Retry
pub mod Chunks
pub mod Client
pub mod Download
pub mod Pieces
pub mod Store
pub mod RoundTrip
