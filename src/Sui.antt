-- ===== src/Sui.antt =====
-- Transactions for the Move package: apps/api/src/infra/sui/sui-tx.service.ts, with the Move
-- functions of contracts/rwa_dataroom/sources that they call.
pub mod Transaction
pub mod Params
pub mod Builders
pub mod Entries
pub mod Hex
pub mod Requests
pub mod WellTyped
