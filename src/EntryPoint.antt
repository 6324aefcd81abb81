-- ===== src/EntryPoint.antt =====
-- The entry point contract (contracts/core/): how it reads a user operation, nonces,
-- stakes, and how it handles a bundle of operations.
pub mod Memory
pub mod ReadBack
pub mod Nonce
pub mod Stake
pub mod Hash
pub mod Bundle
