-- ===== src/BigInt/Logic.antt =====
-- `js_bigint_logic` of quickjs.c.
pub mod Bits
pub mod Loop
pub mod Each
mod Examples
use ggjs.Common.{ℕ, List, [], ◌∷◌, length, ltb, if◌then◌else◌, bit_and, bit_or, bit_xor}
use ggjs.BigInt.Repr.{sign, normalize}
use ggjs.BigInt.Arith.{Memory, Result, big, with_new, negated}

-- The opcodes that the function takes.
pub data LogicOp : Type 0 where
  op_or op_and op_xor : LogicOp

pub on_words : LogicOp → ℕ → ℕ → ℕ
on_words op_or = bit_or
on_words op_and = bit_and
on_words op_xor = bit_xor

-- The two loops of a case: the limbs of both operands, then those of the longer one and the sign.
pub logic_loop : (op : LogicOp) (b_sign : ℕ) (a b : List ℕ) → List ℕ
logic_loop op s [] b = []
logic_loop op s (x ∷ xs) [] = on_words op x s ∷ logic_loop op s xs []
logic_loop op s (x ∷ xs) (y ∷ ys) = on_words op x y ∷ logic_loop op s xs ys

-- What follows the exchange of the operands.
pub logic_ordered : Memory → (a b : List ℕ) (op : LogicOp) → Result
logic_ordered mem a b op =
    with_new mem (length a) (big (normalize (logic_loop op (negated (sign b)) a b)))

pub js_bigint_logic : Memory → (a b : List ℕ) (op : LogicOp) → Result
js_bigint_logic mem a b op =
    if ltb (length a) (length b) then logic_ordered mem b a op else logic_ordered mem a b op
