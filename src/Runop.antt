-- ===== src/Runop.antt =====
-- src/runop.ts: what it does, what it prints of events, and when it gives the account ether.
pub mod Events
pub mod Main
pub mod Prefund
