-- ===== src/Shared.antt =====
-- packages/shared/src: the constants and rules that the other packages share.
pub mod Roles
pub mod PoolState
