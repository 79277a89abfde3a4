-- ===== src/Engine/Promise.antt =====
-- Promises and the job queue of .backup/quickjs.c.
pub mod State
pub mod Settle
pub mod Operations
pub mod Scripts
pub mod Closed
pub mod Kept
pub mod Places
pub mod Settled
pub mod Once
pub mod Order
pub mod Adding
pub mod Tests
