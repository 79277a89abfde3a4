-- ===== src/Engine/BigInt.antt =====
-- BigInt arithmetic of .backup/quickjs.c: two's complement numbers in limbs of 32 bits.
pub mod Limbs
pub mod Number
pub mod Arith
pub mod Compare
pub mod Value
pub mod Carry
pub mod Normal
pub mod Sum
pub mod Signs
pub mod Order
pub mod Halves
pub mod LeftShift
pub mod RightLoop
pub mod Dropped
pub mod RightShift
pub mod Tests
