-- ===== src/Dtoa.antt =====
-- The printers of integers of dtoa.c, `u32toa_len` to `i64toa_radix`, without the terminator, which
-- the code does not write either. A function gives the bytes that it writes to `buf`, whose number it
-- returns. A signed number is the word that stands for it.
pub mod Numeral
pub mod Fixed
pub mod Free
pub mod Printers
pub mod Signed
mod Examples
use ggjs.Common.{
  ℕ, zero, suc, ◌+◌, ◌-◌, ◌*◌, ◌/◌, ◌%◌, ◌^◌, List, [], ◌∷◌, ◌++◌, ltb, leb, ◌==◌, if◌then◌else◌,
  bit_and,
}
use ggjs.Common.Run.{Run, ok, fault, ◌>>=◌}

-- `clz32` and `clz64` of cutils.h: the zeros above the highest bit of a word of `w` bits.
unfoldable pub clz : (w n : ℕ) → ℕ
clz zero n = 0
clz (suc w) n = let rest = clz w n in if ltb n (2 ^ w) then suc rest else 0

-- The character of a digit.
abbrev pub decimal_char : ℕ → ℕ
decimal_char digit = digit + 48

abbrev pub digit_char : ℕ → ℕ
digit_char digit = if ltb digit 10 then digit + 48 else digit + (97 - 10)

-- The loops down from the last of `len` places, before the bytes `after`.
pub u32toa_len : (n len : ℕ) (after : List ℕ) → List ℕ
u32toa_len n zero after = after
u32toa_len n (suc len) after = u32toa_len (n / 10) len (decimal_char (n % 10) ∷ after)

pub u64toa_bin_len : (n radix_bits len : ℕ) (after : List ℕ) → List ℕ
u64toa_bin_len n radix_bits zero after = after
u64toa_bin_len n radix_bits (suc len) after =
    u64toa_bin_len (n / 2 ^ radix_bits) radix_bits len
      (digit_char (bit_and n (2 ^ radix_bits - 1)) ∷ after)

pub limb_digits : (n radix len : ℕ) (after : List ℕ) → List ℕ
limb_digits n radix zero after = after
limb_digits n radix (suc len) after =
    limb_digits (n / radix) radix len (digit_char (n % radix) ∷ after)

pub limb_to_a : (n radix len : ℕ) → List ℕ
limb_to_a n radix len = if radix == 10 then u32toa_len n len [] else limb_digits n radix len []

-- The loops that put digits in front of `q` in a local array, in which there is `room` before it.
pub decimal_down : (room n : ℕ) (q : List ℕ) → Run (List ℕ)
decimal_down zero n q = fault
decimal_down (suc room) n q =
    let p = decimal_char (n % 10) ∷ q in
    let rest = decimal_down room (n / 10) p in if n / 10 == 0 then ok p else rest

pub digits_down : (room n radix : ℕ) (q : List ℕ) → Run (List ℕ)
digits_down zero n radix q = fault
digits_down (suc room) n radix q =
    let p = digit_char (n % radix) ∷ q in
    let rest = digits_down room (n / radix) radix p in if n / radix == 0 then ok p else rest

pub u32toa : ℕ → Run (List ℕ)
u32toa n = decimal_down 10 n []

abbrev pub minus_sign : ℕ
minus_sign = 45

pub i32toa : ℕ → Run (List ℕ)
i32toa n =
    let negative : Run (List ℕ) = do
      digits ← u32toa ((2 ^ 32 - n) % 2 ^ 32)
      ok (minus_sign ∷ digits)
    in if ltb n (2 ^ 31) then u32toa n else negative

-- The digits above the last nine of a number of 2^32 or more.
pub u64toa_high : (n1 : ℕ) → Run (List ℕ)
u64toa_high n1 =
    let n2 = n1 / 1000000000 in
    let low = u32toa_len (n1 % 1000000000) 9 [] in
    let two = decimal_char (n2 / 10) ∷ decimal_char (n2 % 10) ∷ low in
    let one = decimal_char n2 ∷ low in
    if leb 0x100000000 n1 then ok (if leb 10 n2 then two else one) else u32toa n1

pub u64toa : ℕ → Run (List ℕ)
u64toa n =
    let long : Run (List ℕ) = do
      high ← u64toa_high (n / 1000000000)
      ok (high ++ u32toa_len (n % 1000000000) 9 [])
    in if ltb n 0x100000000 then u32toa n else long

pub i64toa : ℕ → Run (List ℕ)
i64toa n =
    let negative : Run (List ℕ) = do
      digits ← u64toa ((2 ^ 64 - n) % 2 ^ 64)
      ok (minus_sign ∷ digits)
    in if ltb n (2 ^ 63) then u64toa n else negative

-- The number of digits for a radix of 2^radix_bits.
pub bin_len : (n radix_bits : ℕ) → ℕ
bin_len n radix_bits = if n == 0 then 1 else (64 - clz 64 n + radix_bits - 1) / radix_bits

pub u64toa_radix : (n radix : ℕ) → Run (List ℕ)
u64toa_radix n radix =
    let radix_bits = 31 - clz 32 radix in
    if radix == 10
    then u64toa n
    else if bit_and radix (radix - 1) == 0
    then ok (u64toa_bin_len n radix_bits (bin_len n radix_bits) [])
    else digits_down 41 n radix []

pub i64toa_radix : (n radix : ℕ) → Run (List ℕ)
i64toa_radix n radix =
    let negative : Run (List ℕ) = do
      digits ← u64toa_radix ((2 ^ 64 - n) % 2 ^ 64) radix
      ok (minus_sign ∷ digits)
    in if ltb n (2 ^ 63) then u64toa_radix n radix else negative
