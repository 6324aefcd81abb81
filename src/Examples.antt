-- ===== src/Examples.antt =====
-- The theorems at concrete inputs, with values that the examples share.
pub mod Values
pub mod Operations
pub mod Deployments
pub mod Contract
pub mod Bundled
pub mod Bundles
pub mod Accounts
pub mod Utilities
pub mod Reports
pub mod Signatures
pub mod GasTests
pub mod Transfers
pub mod Runs
pub mod Hashes
