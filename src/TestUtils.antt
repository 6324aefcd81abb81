-- ===== src/TestUtils.antt =====
-- Helpers of test/testutils.ts that stand on their own.
pub mod FindMin
pub mod Validation
