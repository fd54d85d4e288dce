-- ===== src/BigInt.antt =====
-- The BigInt support of quickJS/src/main/cpp/quickjs/quickjs.c, with JS_LIMB_BITS = 64.
pub mod Limb
pub mod Mp
pub mod Repr
pub mod Arith
pub mod Convert
pub mod Compare
pub mod Shift
pub mod Multiply
pub mod Logic
pub mod Power
