-- ===== src/UserOp.antt =====
-- User operations in the TypeScript tooling: test/UserOperation.ts, test/UserOp.ts and the packing
-- helpers of test/testutils.ts.
pub mod Types
pub mod Pack
pub mod Cost
pub mod RoundTrip
pub mod Fill
pub mod Bytes
pub mod Keeps
pub mod Sign
pub mod Signed
pub mod Deployer
