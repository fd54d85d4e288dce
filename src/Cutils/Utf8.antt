-- ===== src/Cutils/Utf8.antt =====
-- `unicode_to_utf8` and `unicode_from_utf8` of cutils.c.
mod Examples
pub mod Arith
pub mod Canonical
pub mod Lead
pub mod RoundTrip
pub mod Safe
pub mod Size
use ggjs.Common.{
  ℕ, zero, suc, ◌+◌, ◌-◌, ◌*◌, ◌/◌, ◌%◌, ◌^◌, Bool, List, [], ◌∷◌, Option, none, some, ltb, leb,
  ◌&&◌, ◌||◌, if◌then◌else◌, get_or, bit_and, bit_or,
}

-- A store through a `uint8_t *`.
abbrev pub u8 : ℕ → ℕ
u8 n = n % 2 ^ 8

abbrev pub utf8_char_len_max : ℕ
utf8_char_len_max = 6

-- A first byte: the bits of `c` from `k` up, behind a mark.
pub first : (mark k c : ℕ) → ℕ
first mark k c = u8 (bit_or (c / 2 ^ k) mark)

-- A byte that continues: six bits of `c` from `k` up.
pub cont : (k c : ℕ) → ℕ
cont k c = u8 (bit_or (bit_and (c / 2 ^ k) 0x3f) 0x80)

-- The bytes that are written; none is the return value 0.
pub unicode_to_utf8 : ℕ → List ℕ
unicode_to_utf8 c =
    if ltb c 0x80
    then u8 c ∷ []
    else if ltb c 0x800
    then first 0xc0 6 c ∷ cont 0 c ∷ []
    else if ltb c 0x10000
    then first 0xe0 12 c ∷ cont 6 c ∷ cont 0 c ∷ []
    else if ltb c 0x00200000
    then first 0xf0 18 c ∷ cont 12 c ∷ cont 6 c ∷ cont 0 c ∷ []
    else if ltb c 0x04000000
    then first 0xf8 24 c ∷ cont 18 c ∷ cont 12 c ∷ cont 6 c ∷ cont 0 c ∷ []
    else if ltb c 0x80000000
    then first 0xfc 30 c ∷ cont 24 c ∷ cont 18 c ∷ cont 12 c ∷ cont 6 c ∷ cont 0 c ∷ []
    else []

-- A code and the bytes behind `*pp`; the return value -1; a read past the end of the bytes.
pub data Decoded : Type 0 where
  code : ℕ → List ℕ → Decoded
  invalid fault : Decoded

abbrev pub utf8_min_code : List ℕ
utf8_min_code = 0x80 ∷ 0x800 ∷ 0x10000 ∷ 0x00200000 ∷ 0x04000000 ∷ []

abbrev pub utf8_first_code_mask : List ℕ
utf8_first_code_mask = 0x1f ∷ 0xf ∷ 0x7 ∷ 0x3 ∷ 0x1 ∷ []

-- The `switch`: how many bytes follow a first byte.
pub follow : ℕ → Option ℕ
follow c =
    if leb 0xc0 c && leb c 0xdf
    then some 1
    else if leb 0xe0 c && leb c 0xef
    then some 2
    else if leb 0xf0 c && leb c 0xf7
    then some 3
    else if leb 0xf8 c && leb c 0xfb
    then some 4
    else if leb 0xfc c && leb c 0xfd
    then some 5
    else none

-- The loop, with `left` rounds left, and the test after it.
pub collect : (left c least : ℕ) → List ℕ → Decoded
collect zero c least p = if ltb c least then invalid else code c p
collect (suc left) c least [] = fault
collect (suc left) c least (b ∷ p) =
    let next = collect left (bit_or (c * 2 ^ 6) (bit_and b 0x3f)) least p in
    if ltb b 0x80 || leb 0xc0 b then invalid else next

pub from_first : (c max_len : ℕ) → Option ℕ → List ℕ → Decoded
from_first c max_len none p = invalid
from_first c max_len (some l) p =
    if ltb (max_len - 1) l
    then invalid
    else collect l (bit_and c (get_or utf8_first_code_mask (l - 1) 0))
        (get_or utf8_min_code (l - 1) 0) p

pub unicode_from_utf8 : List ℕ → (max_len : ℕ) → Decoded
unicode_from_utf8 [] max_len = fault
unicode_from_utf8 (c ∷ p) max_len =
    if ltb c 0x80 then code c p else from_first c max_len (follow c) p
