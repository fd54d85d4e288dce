-- ===== src/BigInt/Multiply.antt =====
-- `js_bigint_mul` of quickjs.c.
pub mod Wrap
pub mod Product
mod Examples
use ggjs.Common.{ℕ, ◌+◌, List, ◌++◌, length, take, drop, ◌==◌, if◌then◌else◌}
use ggjs.BigInt.Limb.{Carried}
use ggjs.BigInt.Mp.{mp_sub, mp_mul_basecase}
use ggjs.BigInt.Repr.{sign, normalize}
use ggjs.BigInt.Arith.{Memory, Result, big, with_new}

-- `mp_sub` in place on the limbs of `r` from `start` on.
pub sub_from : (r : List ℕ) (start : ℕ) (op2 : List ℕ) → List ℕ
sub_from r start op2 = take start r ++ (mp_sub (drop start r) op2 0).limbs

-- The corrections for negative operands.
pub corrected : (r a b : List ℕ) → List ℕ
corrected r a b =
    let r1 = if sign a == 0 then r else sub_from r (length a) b in
    if sign b == 0 then r1 else sub_from r1 (length b) a

pub js_bigint_mul : Memory → (a b : List ℕ) → Result
js_bigint_mul mem a b =
    with_new mem (length a + length b) (big (normalize (corrected (mp_mul_basecase a b) a b)))
