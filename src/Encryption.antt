-- ===== src/Encryption.antt =====
-- The encryption SDK: packages/encryption-sdk/src. Web Crypto is a parameter: a record of its
-- operations, with the laws that the theorems need as hypotheses.
pub mod Hash
pub mod Integrity
pub mod Engine
pub mod Keys
