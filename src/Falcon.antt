-- ===== src/Falcon.antt =====
-- The Falcon decoders of scripts/anvil-falcon-tx.ts.
pub mod Word
pub mod BitStream
pub mod Checked
pub mod Serial
pub mod LowFirst
pub mod PublicKey
pub mod Signature
