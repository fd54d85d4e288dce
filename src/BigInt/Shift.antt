-- ===== src/BigInt/Shift.antt =====
-- `js_bigint_shl` and `js_bigint_shr` of quickjs.c.
pub mod Pad
pub mod Left
pub mod Right
pub mod Floor
mod Examples
use ggjs.Common.{
  ℕ, ◌+◌, ◌-◌, ◌*◌, ◌/◌, ◌%◌, ◌^◌, Bool, List, ◌++◌, length, get_or, replicate, drop, leb, ◌==◌,
  ◌&&◌, if◌then◌else◌, bit_or,
}
use ggjs.BigInt.Limb.{limb_bits, base, limb}
use ggjs.BigInt.Mp.{mp_shl, mp_shr}
use ggjs.BigInt.Repr.{sign, ones, normalize}
use ggjs.BigInt.Arith.{Memory, Result, big, with_new, extend, negated}
use ggjs.BigInt.Convert.{js_bigint_new_si}

-- The limb above the shifted array: what `mp_shl` returned, with the sign's bits above it.
abbrev pub with_sign : (s shift l : ℕ) → ℕ
with_sign s shift l = if s == 0 then l else bit_or l (limb (ones * 2 ^ shift))

pub js_bigint_shl : Memory → (a : List ℕ) (shift1 : ℕ) → Result
js_bigint_shl mem a shift1 =
    let d = shift1 / limb_bits in
    let shift = shift1 % limb_bits in
    let r = mp_shl a shift in
    if length a == 1 && get_or a 0 0 == 0
    then js_bigint_new_si mem 0
    else with_new mem (length a + d) (
        if shift == 0
        then big (replicate d 0 ++ a)
        else extend mem (replicate d 0 ++ r.limbs) (with_sign (sign a) shift r.carry))

pub js_bigint_shr : Memory → (a : List ℕ) (shift1 : ℕ) → Result
js_bigint_shr mem a shift1 =
    let d = shift1 / limb_bits in
    let shift = shift1 % limb_bits in
    let a_sign = sign a in
    if leb (length a) d
    then js_bigint_new_si mem (negated a_sign)
    else with_new mem (length a - d) (
        if shift == 0
        then big (drop d a)
        else big (normalize (mp_shr (drop d a) shift (negated a_sign)).limbs))
