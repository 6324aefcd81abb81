-- ===== src/EntryPoint/Bundle.antt =====
-- `handleOps` and `handleAggregatedOps` of contracts/core/EntryPoint.sol: the state of a call and
-- what it may call, validation, execution, and the two handlers.
pub mod Outside
pub mod Validate
pub mod Execute
pub mod Handle
pub mod Bounds
pub mod Rules
pub mod Created
pub mod Keeps
pub mod Spends
pub mod Solvent
pub mod Groups
pub mod Monotone
pub mod Once
pub mod Replay
pub mod Raises
pub mod Reverts
