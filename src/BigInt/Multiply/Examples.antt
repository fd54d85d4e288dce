-- ===== src/BigInt/Multiply/Examples.antt =====
-- Products of negative numbers.
use ggjs.Common.{ℕ, ◌-◌, ◌≡◌, refl, true, ◌≤◌, length, List, [], ◌∷◌, arith}
use ggjs.Common.Int.{◌*ℤ◌}
use ggjs.BigInt.Limb.{base}
use ggjs.BigInt.Repr.{integer}
use ggjs.BigInt.Arith.{Memory, big}
use ggjs.BigInt.Arith.Extend.{IsBig}
use ggjs.BigInt.Multiply.{js_bigint_mul}
use ggjs.BigInt.Multiply.Product.{js_bigint_mul-integer}

abbrev granting : Memory
granting = record { malloc = λ n. true; realloc = λ n. true }

-- -3 and -2^64.
abbrev minus_three : List ℕ
minus_three = (base - 3) ∷ []

abbrev low : List ℕ
low = 0 ∷ (base - 1) ∷ []

js_bigint_mul-integer_example :
    (t : List ℕ) × (js_bigint_mul granting minus_three low ≡ big t)
    × (integer t ≡ integer minus_three *ℤ integer low)
    × IsBig t
    × (length t ≤ 3)
js_bigint_mul-integer_example =
    js_bigint_mul-integer granting minus_three low ((omega arith, tt), omega arith)
      ((omega arith, (omega arith, tt)), omega arith) (omega arith) refl
