-- ===== src/Dtoa/Examples.antt =====
-- The printers of dtoa.c at concrete numbers.
use ggjs.Common.{ℕ, ◌^◌, ◌-◌, length, [], ◌∷◌, ◌≡◌, refl, arith}
use ggjs.Common.Run.{Ends, ok}
use ggjs.Dtoa.{
  limb_to_a, u64toa, u64toa_radix, i64toa_radix, u32toa_len, u64toa_bin_len, u64toa_high, u32toa,
  decimal_down, bin_len, clz,
}
use ggjs.Dtoa.Numeral.{IsNumeral, number, AreDigits}
use ggjs.Dtoa.Fixed.{limb_to_a-number}
use ggjs.Dtoa.Printers.{u64toa_radix-IsNumeral}
use ggjs.Dtoa.Signed.{IsSigned, i64toa_radix-IsSigned}

-- 2^64 - 1 in radix 3 takes the 41 bytes of the local array.
abbrev widest : ℕ
widest = 2 ^ 64 - 1

u64toa_radix-IsNumeral_example : Ends (IsNumeral 3 widest) (u64toa_radix widest 3)
u64toa_radix-IsNumeral_example =
    u64toa_radix-IsNumeral widest 3 (omega arith) (omega arith) (omega arith)

i64toa_radix-IsSigned_example :
    Ends (IsSigned (2 ^ 63) 16 (2 ^ 64 - 255)) (i64toa_radix (2 ^ 64 - 255) 16)
i64toa_radix-IsSigned_example =
    i64toa_radix-IsSigned (2 ^ 64 - 255) 16 (omega arith) (omega arith) (omega arith)

limb_to_a-number_example :
    (number 36 0 (limb_to_a 1295 36 4) ≡ 1295)
    × AreDigits 36 (limb_to_a 1295 36 4)
    × (length (limb_to_a 1295 36 4) ≡ 4)
limb_to_a-number_example = limb_to_a-number 1295 36 4 (omega arith) (omega arith) (omega arith)

-- "-ff"
i64toa_radix-test : i64toa_radix (2 ^ 64 - 255) 16 ≡ ok (45 ∷ 102 ∷ 102 ∷ [])
unfolding i64toa_radix u64toa_radix u64toa_bin_len bin_len clz
i64toa_radix-test = refl

-- "18446744073709551615"
u64toa-test :
    u64toa widest
    ≡ ok (
        49 ∷ 56 ∷ 52 ∷ 52 ∷ 54 ∷ 55 ∷ 52 ∷ 52 ∷ 48 ∷ 55 ∷ 51 ∷ 55 ∷ 48 ∷ 57 ∷ 53 ∷ 53 ∷ 49 ∷ 54 ∷ 49
        ∷ 53 ∷ [])
unfolding u64toa u64toa_high u32toa u32toa_len decimal_down
u64toa-test = refl
