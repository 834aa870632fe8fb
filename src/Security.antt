-- ===== src/Security.antt =====
-- wallet-extension/src/core/security.ts
pub mod Limits
pub mod Wipe
pub mod SecureString
pub mod ConstantTime
pub mod Lockout
pub mod Session
pub mod Pin
pub mod SessionPin
pub mod Address
pub mod Checksum
pub mod Amount
pub mod Moniker
mod Tests
