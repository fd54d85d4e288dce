-- ===== src/Cutils/Utf8/Size.antt =====
-- The six lengths of an encoding.
use ggjs.Common.{◌^◌, ◌≤◌, ◌<◌, ◌≡◌, ℕ, [], ◌∷◌, arith}
use native.Mathlib.Decide.{dec_lt}
use ggjs.Cutils.Utf8.{first, cont, unicode_to_utf8}

-- How many bytes follow the first one.
pub data Size (c : ℕ) : Type 0 where
  ascii : c < 0x80 → Size c
  one : 0x80 ≤ c → c < 0x800 → Size c
  two : 0x800 ≤ c → c < 0x10000 → Size c
  three : 0x10000 ≤ c → c < 0x200000 → Size c
  four : 0x200000 ≤ c → c < 0x4000000 → Size c
  five : 0x4000000 ≤ c → c < 0x80000000 → Size c

pub size : (c : ℕ) → c < 2 ^ 31 → Size c
size c h = elim (dec_lt c 0x80) [
  | yes p ↦ ascii p
  | no p ↦ elim (dec_lt c 0x800) [
    | yes q0 ↦ one (omega arith) q0
    | no q0 ↦ elim (dec_lt c 0x10000) [
      | yes q1 ↦ two (omega arith) q1
      | no q1 ↦ elim (dec_lt c 0x200000) [
        | yes q2 ↦ three (omega arith) q2
        | no q2 ↦ elim (dec_lt c 0x4000000) [
          | yes q3 ↦ four (omega arith) q3
          | no q3 ↦ five (omega arith) h
        ]
      ]
    ]
  ]
]

module _ (c : ℕ) where
  pub encode_ascii : c < 0x80 → unicode_to_utf8 c ≡ c ∷ []
  unfolding unicode_to_utf8
  encode_ascii h = ground arith

  pub encode_one : 0x80 ≤ c → c < 0x800 → unicode_to_utf8 c ≡ first 0xc0 6 c ∷ cont 0 c ∷ []
  unfolding unicode_to_utf8
  encode_one lo hi = ground arith

  pub encode_two :
      0x800 ≤ c → c < 0x10000 → unicode_to_utf8 c ≡ first 0xe0 12 c ∷ cont 6 c ∷ cont 0 c ∷ []
  unfolding unicode_to_utf8
  encode_two lo hi = ground arith

  pub encode_three :
      0x10000 ≤ c
      → c < 0x200000
      → unicode_to_utf8 c ≡ first 0xf0 18 c ∷ cont 12 c ∷ cont 6 c ∷ cont 0 c ∷ []
  unfolding unicode_to_utf8
  encode_three lo hi = ground arith

  pub encode_four :
      0x200000 ≤ c
      → c < 0x4000000
      → unicode_to_utf8 c ≡ first 0xf8 24 c ∷ cont 18 c ∷ cont 12 c ∷ cont 6 c ∷ cont 0 c ∷ []
  unfolding unicode_to_utf8
  encode_four lo hi = ground arith

  pub encode_five :
      0x4000000 ≤ c
      → c < 0x80000000
      → unicode_to_utf8 c
        ≡ first 0xfc 30 c ∷ cont 24 c ∷ cont 18 c ∷ cont 12 c ∷ cont 6 c ∷ cont 0 c ∷ []
  unfolding unicode_to_utf8
  encode_five lo hi = ground arith
