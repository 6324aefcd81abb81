-- ===== src/GasCheck.antt =====
-- gascalc/GasChecker.ts: the gas reports' accounts.
pub mod Accounts
pub mod Created
pub mod Run
pub mod Report
pub mod Singleton
pub mod TestRow
