-- ===== src/BigInt/Convert.antt =====
-- Between `JSBigInt` and the integers of C, and the complement, of quickjs.c: `js_bigint_set_si` to
-- `js_bigint_new_di`, `js_bigint_get_si_sat` and `js_bigint_not`, with limbs of 64 bits. A signed
-- argument or result is the word that stands for it.
pub mod New
pub mod Not
pub mod Saturate
mod Examples
use ggjs.Common.{
  bit_xor, ℕ, ◌+◌, ◌-◌, ◌*◌, ◌/◌, ◌%◌, ◌^◌, Bool, List, [], ◌∷◌, length, get_or, map, ltb, leb,
  ◌==◌, if◌then◌else◌,
}
use ggjs.BigInt.Limb.{limb_bits, base, limb}
use ggjs.BigInt.Repr.{sign, ones}
use ggjs.BigInt.Arith.{Memory, Result, big, with_new}

-- `js_bigint_set_si` writes into a buffer of its caller.
pub js_bigint_set_si : ℕ → List ℕ
js_bigint_set_si a = a ∷ []

pub js_bigint_set_si64 : ℕ → List ℕ
js_bigint_set_si64 a = js_bigint_set_si a

-- `val` is the number that the value holds.
pub js_bigint_set_short : (val : ℕ) → List ℕ
js_bigint_set_short val = js_bigint_set_si val

module _ (mem : Memory) where
  pub js_bigint_new_si : ℕ → Result
  js_bigint_new_si a = with_new mem 1 (big (a ∷ []))

  pub js_bigint_new_si64 : ℕ → Result
  js_bigint_new_si64 a = js_bigint_new_si a

  pub js_bigint_new_ui64 : ℕ → Result
  js_bigint_new_ui64 a =
      if leb a (2 ^ 63 - 1)
      then js_bigint_new_si64 a
      else with_new mem ((65 + limb_bits - 1) / limb_bits) (big (a ∷ 0 ∷ []))

-- A `js_slimb_t` as a `js_sdlimb_t`.
abbrev pub widened : ℕ → ℕ
widened a = if ltb a (2 ^ 63) then a else a + (2 ^ 128 - 2 ^ 64)

module _ (mem : Memory) where
  pub js_bigint_new_di : ℕ → Result
  js_bigint_new_di a =
      if a == widened (limb a)
      then with_new mem 1 (big (limb a ∷ []))
      else with_new mem 2 (big (limb a ∷ limb (a / base) ∷ []))

-- INT64_MIN and INT64_MAX where the integer has more limbs.
pub js_bigint_get_si_sat : List ℕ → ℕ
js_bigint_get_si_sat t =
    if length t == 1 then get_or t 0 0 else if sign t == 0 then 2 ^ 63 - 1 else 2 ^ 63

-- ~v
abbrev pub complement : ℕ → ℕ
complement v = bit_xor v ones

pub js_bigint_not : Memory → List ℕ → Result
js_bigint_not mem a = with_new mem (length a) (big (map complement a))
