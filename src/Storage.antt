-- ===== src/Storage.antt =====
-- wallet-extension/src/core/storage.secure.ts
pub mod Vault
pub mod Memory
pub mod Deleting
