-- ===== src/BigInt/Mp/Examples.antt =====
-- The loops on arrays of limbs at small arrays.
use ggjs.Common.{ℕ, ◌+◌, ◌-◌, ◌*◌, ◌^◌, ◌<◌, ◌≡◌, refl, List, [], ◌∷◌, length, arith}
use ggjs.BigInt.Limb.{base, value, snoc, IsLimbs}
use ggjs.BigInt.Mp.{mp_add, addc, mp_mul_basecase, mp_div1, mp_shr}
use ggjs.BigInt.Mp.Product.{mp_mul_basecase-value}
use ggjs.BigInt.Mp.Quotient.{mp_div1-value}
use ggjs.BigInt.Mp.Shift.{mp_shr-value}

abbrev top : ℕ
top = base - 1

abbrev two : List ℕ
two = top ∷ 5 ∷ []

abbrev other : List ℕ
other = 3 ∷ top ∷ []

two-IsLimbs : IsLimbs two
two-IsLimbs = omega arith

other-IsLimbs : IsLimbs other
other-IsLimbs = omega arith

-- A carry runs through both limbs and out of the array.
mp_add_carries : (mp_add two other 0).carry ≡ 1
unfolding mp_add addc
mp_add_carries = refl

mp_mul_basecase-value_example :
    (value (mp_mul_basecase two other) ≡ value two * value other)
    × IsLimbs (mp_mul_basecase two other)
    × (length (mp_mul_basecase two other) ≡ 2 + 2)
mp_mul_basecase-value_example =
    mp_mul_basecase-value two other (omega arith) two-IsLimbs other-IsLimbs

mp_div1-value_example :
    (value (snoc two 2) ≡ value (mp_div1 two 10 2).limbs * 10 + (mp_div1 two 10 2).carry)
    × ((mp_div1 two 10 2).carry < 10)
    × IsLimbs (mp_div1 two 10 2).limbs
    × (length (mp_div1 two 10 2).limbs ≡ 2)
mp_div1-value_example = mp_div1-value two 10 2 two-IsLimbs (omega arith) (omega arith)

mp_shr-value_example :
    (value (snoc two 3) ≡ value (mp_shr two 7 3).limbs * 2 ^ 7 + (mp_shr two 7 3).carry)
    × ((mp_shr two 7 3).carry < 2 ^ 7)
    × IsLimbs (mp_shr two 7 3).limbs
    × (length (mp_shr two 7 3).limbs ≡ 2)
mp_shr-value_example = mp_shr-value two 7 3 (omega arith) (omega arith) two-IsLimbs (omega arith)
