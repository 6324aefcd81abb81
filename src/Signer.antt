-- ===== src/Signer.antt =====
-- src/AASigner.ts: ways to send a user operation, and the signer that wraps an account.
pub mod Queue
pub mod Account
pub mod Response
pub mod Send
pub mod Transaction
