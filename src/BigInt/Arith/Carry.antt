-- ===== src/BigInt/Arith/Carry.antt =====
-- The loops of `js_bigint_add` on the numbers that the arrays stand for.
use ggjs.Common.{
  ℕ, suc, refl, zero, ◌+◌, ◌-◌, ◌*◌, ◌≤◌, ◌<◌, ◌≡◌, List, [], ◌∷◌, map, length, max, arith, bit_xor,
}
use ggjs.Common.Bits.{bit_xor-ones, bit_xor-zero}
use ggjs.BigInt.Limb.{base, value, snoc, total, IsLimbs}
use ggjs.BigInt.Mp.{addc}
use ggjs.BigInt.Mp.Sum.{addc_lem}
use ggjs.BigInt.Repr.{ones, above}
use ggjs.BigInt.Arith.{negated, add_loop}

-- A limb of the second operand as the loops read it.
abbrev pub flip : ℕ → ℕ → ℕ
flip n y = bit_xor y (negated n)

pub flip-zero : (y : ℕ) → flip 0 y ≡ y
flip-zero y = bit_xor-zero y

pub flip-one : (y : ℕ) → y < base → flip 1 y ≡ ones - y
flip-one y h = bit_xor-ones 64 y h

pub flip-lt : (n y : ℕ) → n ≤ 1 → y < base → flip n y < base
flip-lt zero y hn hy = rw (flip-zero y) hy
flip-lt (suc zero) y hn hy = omega (arith, flip-one y hy)
flip-lt (suc (suc n)) y hn hy = absurd (omega arith)

-- Complementing the limbs is subtracting from the power of the base, less one.
pub value-flip_zero : (ys : List ℕ) → value (map (flip 0) ys) ≡ value ys
unfolding value
value-flip_zero [] = refl
value-flip_zero (y ∷ ys) = omega (arith, flip-zero y, value-flip_zero ys)

pub value-flip_one :
    (ys : List ℕ) → IsLimbs ys → value (map (flip 1) ys) + value ys + 1 ≡ above 1 ys
unfolding value above
value-flip_one [] h = refl
value-flip_one (y ∷ ys) h = omega (arith, flip-one y h.0, value-flip_one ys h.1)

-- For sign bits `sa` and `sb` the loops add the integers of the operands and the carry, the signs
-- being worth the power of the base above the result.
pub add_loop-value :
    (n sa sb : ℕ) (xs ys : List ℕ) (k : ℕ)
    → n ≤ 1
    → sa ≤ 1
    → sb ≤ 1
    → IsLimbs xs
    → IsLimbs ys
    → k ≤ 1
    → let r = add_loop n (ones * sa) (ones * sb) xs ys k in
      (total r + above sa xs + above sb ys
        ≡ value xs + value (map (flip n) ys) + k + above (sa + sb) r.limbs)
      × IsLimbs r.limbs
      × (length r.limbs ≡ max (length xs) (length ys))
      × (r.carry ≤ 1)
unfolding add_loop value snoc above
add_loop-value n sa sb [] [] k hn ha hb hx hy hk = omega arith
add_loop-value n sa sb (x ∷ xs) [] k hn ha hb hx hy hk =
    let s = addc_lem x (ones * sb) k hx.0 (omega arith) hk in
    let ih = add_loop-value n sa sb xs [] (addc x (ones * sb) k).next hn ha hb hx.1 hy s.1 in
    (omega (arith, s, ih.0), (s.2, ih.1), omega (arith, ih.2), ih.3)
add_loop-value n sa sb [] (y ∷ ys) k hn ha hb hx hy hk =
    let f = flip-lt n y hn hy.0 in
    let s = addc_lem (ones * sa) (flip n y) k (omega arith) f hk in
    let ih =
      add_loop-value n sa sb [] ys (addc (ones * sa) (flip n y) k).next hn ha hb hx hy.1 s.1 in
    (omega (arith, s, ih.0), (s.2, ih.1), omega (arith, ih.2), ih.3)
add_loop-value n sa sb (x ∷ xs) (y ∷ ys) k hn ha hb hx hy hk =
    let f = flip-lt n y hn hy.0 in
    let s = addc_lem x (flip n y) k hx.0 f hk in
    let ih = add_loop-value n sa sb xs ys (addc x (flip n y) k).next hn ha hb hx.1 hy.1 s.1 in
    (omega (arith, s, ih.0), (s.2, ih.1), omega (arith, ih.2), ih.3)
