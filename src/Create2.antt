-- ===== src/Create2.antt =====
-- src/Create2Factory.ts: deployment through the deterministic deployment proxy.
pub mod Address
pub mod Deploy
pub mod Once
