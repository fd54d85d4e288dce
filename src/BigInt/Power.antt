-- ===== src/BigInt/Power.antt =====
-- `js_bigint_pow` of quickjs.c.
pub mod Integers
pub mod Loop
pub mod Two
pub mod Limb
pub mod Raise
mod Examples
use ggjs.Common.{
  ℕ, zero, suc, ◌+◌, ◌-◌, ◌*◌, ◌/◌, ◌%◌, ◌^◌, List, [], ◌∷◌, length, get_or, set, replicate, ltb,
  leb, ◌==◌, ◌&&◌, if◌then◌else◌, bit_and,
}
use ggjs.BigInt.Limb.{base, limb, limb_bits}
use ggjs.BigInt.Repr.{sign, ones}
use ggjs.BigInt.Arith.{Memory, Result, big, range_error, no_memory, with_new, max_size, negated}
use ggjs.BigInt.Convert.{js_bigint_new_si}
use ggjs.BigInt.Multiply.{js_bigint_mul}
use ggjs.Dtoa.{clz}

-- INT32_MAX
abbrev pub int32_max : ℕ
int32_max = 2 ^ 31 - 1

-- Go on with the array that a call returned, or return NULL after it.
pub or_null : Result → (List ℕ → Result) → Result
or_null (big t) next = next t
or_null range_error next = range_error
or_null no_memory next = no_memory

-- The rounds for the bits of `e` below the first `rounds`.
pub pow_rounds : Memory → (a : List ℕ) (e rounds : ℕ) (r : List ℕ) → Result
pow_rounds mem a e zero r = big r
pow_rounds mem a e (suc i) r = or_null (js_bigint_mul mem r r) (λ r1.
    or_null (if e / 2 ^ i % 2 == 0 then big r1 else js_bigint_mul mem r1 a)
      (λ r2. pow_rounds mem a e i r2))

-- From the tests of the size of the exponent to the end of the loop.
pub pow_loop : Memory → (a b : List ℕ) → Result
pow_loop mem a b =
    let e = get_or b 0 0 in
    let n_bits = 32 - clz 32 e in
    if ltb 1 (length b)
    then range_error
    else if ltb int32_max e
    then range_error
    else with_new mem (length a) (pow_rounds mem a e (n_bits - 1) a)

-- The power of 2^n, or of -2^n.
pub pow_of_two : Memory → (b : List ℕ) (n is_neg : ℕ) → Result
pow_of_two mem b n is_neg =
    let e = get_or b 0 0 in
    let e1 = e * n % 2 ^ 64 in
    let odd = if is_neg == 0 then 0 else bit_and e 1 in
    let len = (e1 + limb_bits + 1 - odd) / limb_bits in
    let top = limb (limb (base + 1 - 2 * odd) * 2 ^ (e1 % limb_bits)) in
    if ltb 1 (length b)
    then range_error
    else if ltb int32_max e
    then range_error
    else if ltb (max_size * limb_bits) e1
    then range_error
    else with_new mem len (big (set (replicate len 0) (e1 / limb_bits) top))

-- The branch for a base of one limb.
pub pow_limb : Memory → (a b : List ℕ) → Result
pow_limb mem a b =
    let v = get_or a 0 0 in
    let is_neg = v / 2 ^ 63 in
    let w = if is_neg == 0 then v else limb (base - v) in
    if leb v 1
    then js_bigint_new_si mem v
    else if v == ones
    then js_bigint_new_si mem (limb (base + 1 - 2 * bit_and (get_or b 0 0) 1))
    else if bit_and w (w - 1) == 0
    then pow_of_two mem b (limb_bits - 1 - clz 64 w) is_neg
    else pow_loop mem a b

pub js_bigint_pow : Memory → (a b : List ℕ) → Result
js_bigint_pow mem a b =
    if sign b == 0
    then (if length b == 1 && get_or b 0 0 == 0
        then js_bigint_new_si mem 1
        else if length a == 1
        then pow_limb mem a b
        else pow_loop mem a b)
    else range_error
