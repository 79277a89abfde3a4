-- ===== src/Engine.antt =====
-- The C engine, .backup/quickjs.c.
pub mod Tests
pub mod Base64
pub mod Hex
pub mod Escape
pub mod Uri
pub mod Result
pub mod Text
pub mod Uint8Array
pub mod MapState
pub mod Date
pub mod BigInt
pub mod Promise
