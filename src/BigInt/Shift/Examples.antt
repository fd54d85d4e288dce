-- ===== src/BigInt/Shift/Examples.antt =====
-- A shift of a negative integer by more than a limb.
use ggjs.Common.{ℕ, ◌-◌, ◌^◌, ◌≡◌, refl, true, List, [], ◌∷◌, arith}
use ggjs.Common.Int.{pos, ◌*ℤ◌}
use ggjs.BigInt.Limb.{base}
use ggjs.BigInt.Repr.{integer}
use ggjs.BigInt.Arith.{Memory, big}
use ggjs.BigInt.Arith.Extend.{IsBig}
use ggjs.BigInt.Shift.{js_bigint_shl, js_bigint_shr}
use ggjs.BigInt.Shift.Right.{IsFloor}
use ggjs.BigInt.Shift.Floor.{js_bigint_shr-IsFloor}
use ggjs.BigInt.Shift.Left.{js_bigint_shl-integer}

abbrev granting : Memory
granting = record { malloc = λ n. true; realloc = λ n. true }

abbrev minus_three : List ℕ
minus_three = (base - 3) ∷ []

js_bigint_shl-integer_example :
    (t : List ℕ) × (js_bigint_shl granting minus_three 70 ≡ big t)
    × (integer t ≡ integer minus_three *ℤ pos (2 ^ 70))
    × IsBig t
js_bigint_shl-integer_example =
    js_bigint_shl-integer granting minus_three 70 ((omega arith, tt), omega arith) (omega arith)
      (λ n h. refl) refl

-- -3 * 2^64 + 5
abbrev long : List ℕ
long = 5 ∷ (base - 3) ∷ []

js_bigint_shr-IsFloor_example :
    (t : List ℕ) × (js_bigint_shr granting long 65 ≡ big t)
    × IsFloor (integer long) (2 ^ 65) (integer t)
    × IsBig t
js_bigint_shr-IsFloor_example =
    js_bigint_shr-IsFloor granting long 65 ((omega arith, (omega arith, tt)), omega arith)
      (omega arith) refl refl
