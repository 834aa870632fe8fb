-- ===== src/Screens.antt =====
-- The screens of wallet-extension/src/screens that sign: their state and handlers, without the markup.
-- A handler runs to its end before the next event.
pub mod Signer
pub mod Guarded
pub mod Send
pub mod Stake
pub mod Commas
pub mod Governance
pub mod Validator
