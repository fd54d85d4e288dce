-- ===== src/Cutils/Utf8/Lead.antt =====
-- What the first byte of an accepted encoding can be.
use ggjs.Common.{ℕ, ◌%◌, ◌≤◌, ◌<◌, ◌≡◌, sym, ◌∙◌, List, ◌∷◌, arith}
use native.Mathlib.Decide.{dec_lt}
use ggjs.Cutils.Utf8.{collect, code, follow, from_first, unicode_from_utf8}
use ggjs.Cutils.Utf8.Arith.{start_one, start_two, start_three, start_four, start_five}

-- The first byte, and the loop that follows it.
pub data Lead (b c : ℕ) (p r : List ℕ) : Type 0 where
  ascii : b < 0x80 → code b p ≡ code c r → Lead b c p r
  one : 0xc0 ≤ b → b < 0xe0 → collect 1 (b % 32) 0x80 p ≡ code c r → Lead b c p r
  two : 0xe0 ≤ b → b < 0xf0 → collect 2 (b % 16) 0x800 p ≡ code c r → Lead b c p r
  three : 0xf0 ≤ b → b < 0xf8 → collect 3 (b % 8) 0x10000 p ≡ code c r → Lead b c p r
  four : 0xf8 ≤ b → b < 0xfc → collect 4 (b % 4) 0x200000 p ≡ code c r → Lead b c p r
  five : 0xfc ≤ b → b < 0xfe → collect 5 (b % 2) 0x4000000 p ≡ code c r → Lead b c p r

module _ (b max_len c : ℕ) (p r : List ℕ) (e : unicode_from_utf8 (b ∷ p) max_len ≡ code c r) where
  plain : b < 0x80 → code b p ≡ code c r
  unfolding unicode_from_utf8
  plain h = ground arith

  stray : 0x80 ≤ b → b < 0xc0 → ⊥
  unfolding unicode_from_utf8 follow from_first
  stray lo hi = ground arith

  beyond : 0xfe ≤ b → ⊥
  unfolding unicode_from_utf8 follow from_first
  beyond lo = ground arith

  room_one : 0xc0 ≤ b → b < 0xe0 → 2 ≤ max_len
  unfolding unicode_from_utf8 follow from_first
  room_one lo hi = ground arith

  room_two : 0xe0 ≤ b → b < 0xf0 → 3 ≤ max_len
  unfolding unicode_from_utf8 follow from_first
  room_two lo hi = ground arith

  room_three : 0xf0 ≤ b → b < 0xf8 → 4 ≤ max_len
  unfolding unicode_from_utf8 follow from_first
  room_three lo hi = ground arith

  room_four : 0xf8 ≤ b → b < 0xfc → 5 ≤ max_len
  unfolding unicode_from_utf8 follow from_first
  room_four lo hi = ground arith

  room_five : 0xfc ≤ b → b < 0xfe → 6 ≤ max_len
  unfolding unicode_from_utf8 follow from_first
  room_five lo hi = ground arith

  pub lead : Lead b c p r
  lead = elim (dec_lt b 0x80) [
    | yes h ↦ ascii h (plain h)
    | no h ↦ elim (dec_lt b 0xc0) [
      | yes k ↦ absurd (stray (omega arith) k)
      | no k ↦ elim (dec_lt b 0xe0) [
        | yes q0 ↦
            one (omega arith) q0
              (sym (start_one b max_len p (omega arith) q0 (room_one (omega arith) q0)) ∙ e)
        | no q0 ↦ elim (dec_lt b 0xf0) [
          | yes q1 ↦
              two (omega arith) q1
                (sym (start_two b max_len p (omega arith) q1 (room_two (omega arith) q1)) ∙ e)
          | no q1 ↦ elim (dec_lt b 0xf8) [
            | yes q2 ↦
                three (omega arith) q2
                  (sym (start_three b max_len p (omega arith) q2 (room_three (omega arith) q2)) ∙ e)
            | no q2 ↦ elim (dec_lt b 0xfc) [
              | yes q3 ↦
                  four (omega arith) q3
                    (sym (start_four b max_len p (omega arith) q3 (room_four (omega arith) q3)) ∙ e)
              | no q3 ↦ elim (dec_lt b 0xfe) [
                | yes q4 ↦
                    five (omega arith) q4 (
                      sym (start_five b max_len p (omega arith) q4 (room_five (omega arith) q4))
                      ∙ e)
                | no q4 ↦ absurd (beyond (omega arith))
              ]
            ]
          ]
        ]
      ]
    ]
  ]
