-- ===== src/Cutils/Utf8/Arith.antt =====
-- The bytes of the encoding and the steps of the decoder as sums.
use ggjs.Common.{
  ℕ, suc, ◌+◌, ◌*◌, ◌/◌, ◌%◌, ◌^◌, ◌≤◌, ◌<◌, ◌≡◌, refl, List, ◌∷◌, arith, bit_and, bit_or,
}
use ggjs.Common.Bits.{checks, agree_below, bit_and-low, bit_or-shifted}
use ggjs.Cutils.Utf8.{from_first, follow, unicode_from_utf8, code, first, cont, collect}

low_or_0x80 : (x : ℕ) → x < 64 → bit_or x 0x80 ≡ x + 0x80
unfolding checks
low_or_0x80 x h = agree_below 64 (λ y. bit_or y 0x80) (λ y. y + 0x80) x refl h

pub cont_lem : (k c : ℕ) → cont k c ≡ c / 2 ^ k % 64 + 0x80
unfolding cont
cont_lem k c =
    let bits = bit_and-low 6 (c / 2 ^ k) in
    rw bits (omega (arith, low_or_0x80 (c / 2 ^ k % 64) (omega arith)))

pub first_0xc0 : (c : ℕ) → c < 0x800 → first 0xc0 6 c ≡ c / 64 + 0xc0
unfolding first checks
first_0xc0 c h =
    omega (arith, agree_below 32 (λ y. bit_or y 0xc0) (λ y. y + 0xc0) (c / 64) refl (omega arith))

pub first_0xe0 : (c : ℕ) → c < 0x10000 → first 0xe0 12 c ≡ c / 4096 + 0xe0
unfolding first checks
first_0xe0 c h =
    omega (arith, agree_below 16 (λ y. bit_or y 0xe0) (λ y. y + 0xe0) (c / 4096) refl (omega arith))

pub first_0xf0 : (c : ℕ) → c < 0x200000 → first 0xf0 18 c ≡ c / 2 ^ 18 + 0xf0
unfolding first checks
first_0xf0 c h =
    omega
      (arith, agree_below 8 (λ y. bit_or y 0xf0) (λ y. y + 0xf0) (c / 2 ^ 18) refl (omega arith))

pub first_0xf8 : (c : ℕ) → c < 0x4000000 → first 0xf8 24 c ≡ c / 2 ^ 24 + 0xf8
unfolding first checks
first_0xf8 c h =
    omega
      (arith, agree_below 4 (λ y. bit_or y 0xf8) (λ y. y + 0xf8) (c / 2 ^ 24) refl (omega arith))

pub first_0xfc : (c : ℕ) → c < 0x80000000 → first 0xfc 30 c ≡ c / 2 ^ 30 + 0xfc
unfolding first checks
first_0xfc c h =
    omega
      (arith, agree_below 2 (λ y. bit_or y 0xfc) (λ y. y + 0xfc) (c / 2 ^ 30) refl (omega arith))

-- One round on a byte that continues.
pub shift_in : (c b : ℕ) → bit_or (c * 2 ^ 6) (bit_and b 0x3f) ≡ c * 64 + b % 64
shift_in c b = rw (bit_and-low 6 b) (bit_or-shifted 6 c (b % 64) (omega arith))

pub collect-cont :
    (left c least b : ℕ) (p : List ℕ)
    → 0x80 ≤ b
    → b < 0xc0
    → collect (suc left) c least (b ∷ p) ≡ collect left (c * 64 + b % 64) least p
unfolding collect
collect-cont left c least b p h k = rw (shift_in c b) (ground arith)

pub collect-zero : (c least : ℕ) (p : List ℕ) → least ≤ c → collect 0 c least p ≡ code c p
unfolding collect
collect-zero c least p h = ground arith

-- What the first byte leads to, for each number of bytes that follow.
module _ (b max_len : ℕ) (p : List ℕ) where
  pub start_one :
      0xc0 ≤ b
      → b < 0xe0
      → 2 ≤ max_len
      → unicode_from_utf8 (b ∷ p) max_len ≡ collect 1 (b % 32) 0x80 p
  unfolding unicode_from_utf8 follow from_first
  start_one lo hi room = ground (arith, bit_and-low 5 b)

  pub start_two :
      0xe0 ≤ b
      → b < 0xf0
      → 3 ≤ max_len
      → unicode_from_utf8 (b ∷ p) max_len ≡ collect 2 (b % 16) 0x800 p
  unfolding unicode_from_utf8 follow from_first
  start_two lo hi room = ground (arith, bit_and-low 4 b)

  pub start_three :
      0xf0 ≤ b
      → b < 0xf8
      → 4 ≤ max_len
      → unicode_from_utf8 (b ∷ p) max_len ≡ collect 3 (b % 8) 0x10000 p
  unfolding unicode_from_utf8 follow from_first
  start_three lo hi room = ground (arith, bit_and-low 3 b)

  pub start_four :
      0xf8 ≤ b
      → b < 0xfc
      → 5 ≤ max_len
      → unicode_from_utf8 (b ∷ p) max_len ≡ collect 4 (b % 4) 0x200000 p
  unfolding unicode_from_utf8 follow from_first
  start_four lo hi room = ground (arith, bit_and-low 2 b)

  pub start_five :
      0xfc ≤ b
      → b < 0xfe
      → 6 ≤ max_len
      → unicode_from_utf8 (b ∷ p) max_len ≡ collect 5 (b % 2) 0x4000000 p
  unfolding unicode_from_utf8 follow from_first
  start_five lo hi room = ground (arith, bit_and-low 1 b)
