-- ===== src/BigInt/Power/Limb.antt =====
-- What `js_bigint_pow` writes for a power of two, and when it takes one.
use native.Mathlib.Nat.{mul-le-mul, zero-div, mod-eq_of_lt}
use ggjs.Common.{
  ℕ, zero, suc, ◌+◌, ◌-◌, ◌*◌, ◌/◌, ◌%◌, ◌^◌, ◌≤◌, ◌<◌, ◌≡◌, refl, ap, sym, ◌∙◌, true, false, List,
  [], ◌∷◌, set, replicate, ltb, ◌==◌, if◌then◌else◌, arith, inl, inr, bit_and, lt_or_le, ==_iff,
}
use ggjs.Common.Int.{pos, ◌*ℤ◌}
use ggjs.BigInt.Limb.{base, limb, limb_bits}
use ggjs.BigInt.Repr.{integer}
use ggjs.BigInt.Arith.{Memory, big, max_size, with_new}
use ggjs.BigInt.Arith.Extend.{IsBig}
use ggjs.BigInt.Arith.Add.{with_new-granted}
use ggjs.BigInt.Shift.Pad.{padded, integer-padded, padded-IsLimbs, length-padded}
use ggjs.BigInt.Power.{pow_of_two, int32_max}
use ggjs.BigInt.Power.Integers.{◌^ℤ◌}
use ggjs.BigInt.Power.Loop.{IsGranting}
use ggjs.BigInt.Power.Loop.{top_bit}
use ggjs.BigInt.Power.Two.{signed_two, signed_two-mul, set-replicate, top_limbs, signed_two-power}
use ggjs.Common.Bits.Each.{bit, bit-op, bit_and-IsBitwise}
use ggjs.Common.Bits.{bit_and-low}
use ggjs.Dtoa.{clz}
use ggjs.Dtoa.Free.{clz-highest}

odd_lem : (neg e : ℕ) → neg ≤ 1 → (if neg == 0 then 0 else bit_and e 1) ≡ neg * e % 2
odd_lem zero e h = omega arith
odd_lem (suc zero) e h = bit_and-low 1 e ∙ omega arith
odd_lem (suc (suc n)) e h = absurd (omega arith)

pow_of_two-open :
    (mem : Memory) (e n neg whole odd len : ℕ)
    → e * n % 2 ^ 64 ≡ whole
    → (if neg == 0 then 0 else bit_and e 1) ≡ odd
    → (whole + limb_bits + 1 - odd) / limb_bits ≡ len
    → ltb int32_max e ≡ false
    → ltb (max_size * limb_bits) whole ≡ false
    → pow_of_two mem (e ∷ []) n neg
      ≡ with_new mem len (
          big (
            set
              (replicate len 0)
              (whole / limb_bits)
              (limb (limb (base + 1 - 2 * odd) * 2 ^ (whole % limb_bits)))))
unfolding pow_of_two
pow_of_two-open mem e n neg whole odd len a b c d f = rw (a, b, d, f, c) refl

module _ (mem : Memory) (granting : IsGranting mem) (e n neg : ℕ) (single : neg ≤ 1)
    (small : n < limb_bits) (fits : e ≤ max_size) where
  -- 2^n or -2^n to the power of e.
  pub pow_of_two-power :
      (t : List ℕ) × (pow_of_two mem (e ∷ []) n neg ≡ big t)
      × (integer t ≡ signed_two neg n ^ℤ e)
      × IsBig t
  unfolding IsGranting signed_two
  pow_of_two-power =
      let less : n ≤ 63 = omega arith in
      let product : e * n ≤ max_size * 63 = mul-le-mul fits less in
      let word : e * n % 2 ^ 64 ≡ e * n = mod-eq_of_lt (omega (arith, product)) in
      let odd = odd_lem neg e single in
      let q : ℕ = e * n / limb_bits in
      let s : ℕ = e * n % limb_bits in
      let o : ℕ = neg * e % 2 in
      let (m, count, top, i) = top_limbs o s (omega arith) (omega arith) in
      let x : ℕ = limb (limb (base + 1 - 2 * o) * 2 ^ s) in
      let len : (e * n + limb_bits + 1 - o) / limb_bits ≡ q + suc m = omega (arith, count) in
      let below : ltb int32_max e ≡ false = ground arith in
      let room : ltb (max_size * limb_bits) (e * n) ≡ false = ground (arith, product) in
      let short : q + suc m ≤ max_size = omega (arith, product, count) in
      let whole : s + limb_bits * q ≡ e * n = omega arith in
      let bit_o : o ≤ 1 = omega arith in
      let value : integer (x ∷ replicate m 0) *ℤ pos (2 ^ (limb_bits * q)) ≡ signed_two neg n ^ℤ e =
        ap (λ z. z *ℤ signed_two 0 (limb_bits * q)) top
        ∙ signed_two-mul o 0 o s (limb_bits * q) bit_o (omega arith) (omega arith)
        ∙ ap (λ k. signed_two o k) whole
        ∙ sym (signed_two-power neg n e single) in
      let t : List ℕ = padded q (x ∷ replicate m 0) in
      (
        t,
        pow_of_two-open mem e n neg (e * n) o (q + suc m) word odd len below room
            ∙ with_new-granted mem (q + suc m) (big (set (replicate (q + suc m) 0) q x)) short
                (granting (q + suc m) short)
            ∙ ap big (set-replicate q m x),
        integer-padded q (x ∷ replicate m 0) (omega arith) ∙ value,
        (
          padded-IsLimbs q (x ∷ replicate m 0) i.0,
          omega (arith, length-padded q (x ∷ replicate m 0)),
        ),
      )

high_bit : (w b : ℕ) → 2 ^ b ≤ w → w < 2 ^ suc b → bit w b ≡ 1
high_bit w b low high = ap (λ q. q % 2) (top_bit w b low high)

-- A word of which no bit is set beside the highest.
pub two_power :
    (w : ℕ)
    → 0 < w
    → w < 2 ^ 64
    → (bit_and w (w - 1) == 0) ≡ true
    → (w ≡ 2 ^ (limb_bits - 1 - clz 64 w)) × (limb_bits - 1 - clz 64 w < limb_bits)
two_power w some h e =
    let (b, count, low, high) = clz-highest 64 w some h in
    let n : limb_bits - 1 - clz 64 w ≡ b = omega (arith, count) in
    let none : bit_and w (w - 1) ≡ 0 = (==_iff (bit_and w (w - 1)) 0).0 e in
    elim (lt_or_le (2 ^ b) w) [
      | inl l ↦
          let first : bit w b ≡ 1 = high_bit w b low high in
          let second : bit (w - 1) b ≡ 1 = high_bit (w - 1) b (omega arith) (omega arith) in
          let both : bit (bit_and w (w - 1)) b ≡ bit_and 1 1 =
            bit-op bit_and bit_and-IsBitwise b w (w - 1) ∙ rw (first, second) refl in
          let nothing : bit 0 b ≡ 0 = ap (λ q. q % 2) (zero-div (2 ^ b)) in
          let never : bit 0 b ≡ 1 = rw none at both in absurd (omega (arith, nothing, never))
      | inr l ↦ (omega (arith, low) ∙ ap (λ k. 2 ^ k) (sym n), omega (arith, n, count))
    ]
