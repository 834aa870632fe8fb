-- ===== src/Wallet.antt =====
-- wallet-extension/src/core/wallet.ts
pub mod Amount
pub mod Hex
pub mod Keys
pub mod Accounts
