-- ===== src/Api.antt =====
-- The client of the chain's REST interface, wallet-extension/src/api/sultanAPI.ts.
pub mod Request
pub mod Readers
pub mod Ledger
pub mod Governance
pub mod Samples
