-- ===== src/Totp.antt =====
-- wallet-extension/src/core/totp.ts
pub mod Base32
pub mod Code
pub mod Backup
pub mod TwoFactor
