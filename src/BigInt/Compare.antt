-- ===== src/BigInt/Compare.antt =====
-- `js_bigint_cmp` of quickjs.c, for a `JSBigInt` that is normalised.
pub mod Order
mod Examples
use ggjs.Common.{
  ℕ, ◌+◌, ◌-◌, ◌*◌, Bool, true, false, List, [], ◌∷◌, length, ltb, ◌==◌, if◌then◌else◌,
}
use ggjs.Common.Int.{ℤ, pos, negsuc, sub_ℕ}
use ggjs.BigInt.Repr.{sign}

abbrev pub is_zero : ℤ → Bool
is_zero (pos n) = n == 0
is_zero (negsuc n) = false

-- The loop from the highest limb down, on arrays of one length: a difference higher up is kept.
pub cmp_limbs : (a b : List ℕ) → ℤ
cmp_limbs [] b = pos 0
cmp_limbs (x ∷ a) [] = pos 0
cmp_limbs (x ∷ a) (y ∷ b) =
    let high = cmp_limbs a b in
    if is_zero high then if x == y then pos 0 else if ltb x y then negsuc 0 else pos 1 else high

pub js_bigint_cmp : (a b : List ℕ) → ℤ
js_bigint_cmp a b =
    let a_sign = sign a in
    let b_sign = sign b in
    if a_sign == b_sign
    then if length a == length b
      then cmp_limbs a b
      else if ltb (length a) (length b)
      then sub_ℕ (2 * a_sign) 1
      else sub_ℕ 1 (2 * a_sign)
    else sub_ℕ 1 (2 * a_sign)
