-- ===== src/BigInt/Arith.antt =====
-- The operations `js_bigint_new` to `js_bigint_shr` of quickjs.c on `JSBigInt`. The memory that
-- they ask for is granted or refused by a parameter.
mod Examples
pub mod Add
pub mod Carry
pub mod Extend
use ggjs.Common.{
  ℕ, ◌+◌, ◌-◌, ◌*◌, ◌/◌, Bool, true, false, List, [], ◌∷◌, length, get_or, ltb, if◌then◌else◌, max,
  bit_xor,
}
use ggjs.BigInt.Limb.{limb_bits, base, limb, snoc, Carried, carried}
use ggjs.BigInt.Mp.{addc}
use ggjs.BigInt.Repr.{sign, is_needed, normalize}

-- JS_BIGINT_MAX_SIZE
abbrev pub max_size : ℕ
max_size = 1024 * 1024 / limb_bits

-- Whether `js_malloc` and `js_realloc` grant a `JSBigInt` of so many limbs.
pub record Memory : Type 0 where
  pub malloc : ℕ → Bool
  pub realloc : ℕ → Bool

-- A `JSBigInt *`: an array of limbs, or NULL behind one of two exceptions.
pub data Result : Type 0 where
  big : List ℕ → Result
  range_error no_memory : Result

-- js_bigint_new, and the function that goes on with the new array: it writes all of it.
pub with_new : Memory → (len : ℕ) → Result → Result
with_new mem len rest =
    if ltb max_size len then range_error else if mem.malloc len then rest else no_memory

-- js_bigint_extend
pub extend : Memory → (r : List ℕ) (op1 : ℕ) → Result
extend mem r op1 =
    if is_needed op1 (get_or r (length r - 1) 0)
    then if mem.realloc (length r + 1) then big (snoc r op1) else no_memory
    else big (normalize r)

-- `- b` as a limb, for a C truth value `b`.
abbrev pub negated : ℕ → ℕ
negated b = limb (base - b)

-- The three loops of `js_bigint_add`: the common part, then the rest of the longer operand beside
-- the sign of the other.
pub add_loop : (b_neg a_sign b_sign : ℕ) (a b : List ℕ) (carry : ℕ) → Carried
add_loop n sa sb [] [] k = carried [] k
add_loop n sa sb (x ∷ xs) [] k =
    let s = addc x sb k in
    let rest = add_loop n sa sb xs [] s.next in carried (s.res ∷ rest.limbs) rest.carry
add_loop n sa sb [] (y ∷ ys) k =
    let s = addc sa (bit_xor y (negated n)) k in
    let rest = add_loop n sa sb [] ys s.next in carried (s.res ∷ rest.limbs) rest.carry
add_loop n sa sb (x ∷ xs) (y ∷ ys) k =
    let s = addc x (bit_xor y (negated n)) k in
    let rest = add_loop n sa sb xs ys s.next in carried (s.res ∷ rest.limbs) rest.carry

pub js_bigint_add : Memory → (a b : List ℕ) (b_neg : ℕ) → Result
js_bigint_add mem a b b_neg =
    let a_sign = negated (sign a) in
    let b_sign = bit_xor (negated (sign b)) (negated b_neg) in
    let r = add_loop b_neg a_sign b_sign a b b_neg in
    with_new mem (max (length a) (length b)) (extend mem r.limbs (limb (a_sign + b_sign + r.carry)))

-- js_bigint_neg: 0 - a
pub js_bigint_neg : Memory → List ℕ → Result
js_bigint_neg mem a = js_bigint_add mem (0 ∷ []) a 1
