-- ===== src/BigInt/Power/Examples.antt =====
-- The cube of a negative integer.
use ggjs.Common.{ℕ, ◌-◌, ◌≡◌, refl, List, [], ◌∷◌, arith, true}
use ggjs.BigInt.Limb.{base}
use ggjs.BigInt.Repr.{integer}
use ggjs.BigInt.Arith.{Memory, big}
use ggjs.BigInt.Arith.Extend.{IsBig}
use ggjs.BigInt.Power.{js_bigint_pow}
use ggjs.BigInt.Power.Integers.{◌^ℤ◌}
use ggjs.BigInt.Power.Loop.{IsGranting}
use ggjs.BigInt.Power.Raise.{js_bigint_pow-integer}

abbrev granting : Memory
granting = record { malloc = λ n. true; realloc = λ n. true }

-- -3 * 2^64 + 5
abbrev long : List ℕ
long = 5 ∷ (base - 3) ∷ []

granting-IsGranting : IsGranting granting
unfolding IsGranting
granting-IsGranting = λ n h. refl

js_bigint_pow-integer_example :
    (t : List ℕ) × (js_bigint_pow granting long (3 ∷ []) ≡ big t)
    × (integer t ≡ integer long ^ℤ 3)
    × IsBig t
js_bigint_pow-integer_example =
    js_bigint_pow-integer granting long 3 granting-IsGranting
      ((omega arith, (omega arith, tt)), omega arith) (omega arith)
