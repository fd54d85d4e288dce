-- ===== src/BigInt/Logic/Examples.antt =====
-- The logic operations on a negative and a longer integer.
use ggjs.Common.{ℕ, ◌-◌, ◌≡◌, refl, List, [], ◌∷◌, arith, true}
use ggjs.BigInt.Limb.{base}
use ggjs.BigInt.Repr.{integer}
use ggjs.BigInt.Arith.{Memory, big}
use ggjs.BigInt.Arith.Extend.{IsBig}
use ggjs.BigInt.Logic.{op_xor, js_bigint_logic}
use ggjs.BigInt.Logic.Each.{AreBits, js_bigint_logic-AreBits}

abbrev granting : Memory
granting = record { malloc = λ n. true; realloc = λ n. true }

-- -3 and 6 * 2^64 + 7.
abbrev minus_three : List ℕ
minus_three = (base - 3) ∷ []

abbrev long : List ℕ
long = 7 ∷ 6 ∷ []

js_bigint_logic-AreBits_example :
    (t : List ℕ) × (js_bigint_logic granting minus_three long op_xor ≡ big t)
    × AreBits op_xor (integer minus_three) (integer long) (integer t)
    × IsBig t
js_bigint_logic-AreBits_example =
    js_bigint_logic-AreBits granting minus_three long op_xor ((omega arith, tt), omega arith)
      ((omega arith, (omega arith, tt)), omega arith) (omega arith) refl
