-- ===== src/Crypto.antt =====
-- packages/encryption-sdk: the field of the secret sharing, and the shares.
pub mod Xor
pub mod Gf256
pub mod Lagrange
pub mod Shamir
