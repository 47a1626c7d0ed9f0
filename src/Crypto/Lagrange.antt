-- ===== src/Crypto/Lagrange.antt =====
-- Interpolation at zero over a field where every element is its own negative, as the secret
-- recovery of packages/encryption-sdk/src/keys/recovery.ts does it.
pub mod Field
pub mod Sums
pub mod AtZero
