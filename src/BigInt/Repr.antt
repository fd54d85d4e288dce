-- ===== src/BigInt/Repr.antt =====
-- `JSBigInt` of quickjs.c: an array `tab` of limbs in two's complement, its top bit the sign.
mod Examples
pub mod Extend
pub mod Take
pub mod Normal
pub mod Minimal
pub mod Span
use ggjs.Common.{
  ℕ, zero, suc, ◌+◌, ◌-◌, ◌*◌, ◌/◌, ◌^◌, ◌<◌, Bool, List, [], ◌∷◌, length, get_or, take, ltb, ◌==◌,
  if◌then◌else◌, ◌&&◌, ◌||◌, not, bit_and,
}
use ggjs.Common.Int.{ℤ, sub_ℕ}
use ggjs.BigInt.Limb.{limb_bits, base, value, snoc}

-- The limb -1.
abbrev pub ones : ℕ
ones = base - 1

-- js_bigint_sign
unfoldable pub sign : List ℕ → ℕ
sign t = get_or t (length t - 1) 0 / 2 ^ (limb_bits - 1)

-- `s` times the power of the base above an array.
unfoldable pub above : ℕ → List ℕ → ℕ
above s [] = s
above s (x ∷ xs) = base * above s xs

-- The integer that an array stands for.
unfoldable pub integer : List ℕ → ℤ
integer t = sub_ℕ (value t) (above (sign t) t)

-- The test of the loop of `js_bigint_normalize1`: the limb `v` says more than the sign of the limb
-- `below` it. `js_bigint_extend` makes the same test of a limb that is not stored yet.
abbrev pub is_needed : (v below : ℕ) → Bool
is_needed v below =
    not (v == 0) && not (v == ones) || not (bit_and v 1 == below / 2 ^ (limb_bits - 1))

-- The loop of `js_bigint_normalize1`: the length that is left.
pub normalize_loop : (tab : List ℕ) (l : ℕ) → ℕ
normalize_loop tab zero = 0
normalize_loop tab (suc zero) = 1
normalize_loop tab (suc (suc l)) =
    let rest = normalize_loop tab (suc l) in
    if is_needed (get_or tab (suc l) 0) (get_or tab l 0) then suc (suc l) else rest

pub normalize1 : (tab : List ℕ) (l : ℕ) → List ℕ
normalize1 tab l = take (normalize_loop tab l) tab

pub normalize : List ℕ → List ℕ
normalize tab = normalize1 tab (length tab)
