-- ===== src/BigInt/Logic/Bits.antt =====
-- The bits of an integer, in two's complement without end, and those of the limbs that stand for it.
use native.Mathlib.Nat.{div-div-eq-div-mul, add-mul-div_left, zero-div, one-le-pow, pow-suc}
use ggjs.Common.{
  ℕ, zero, suc, ◌+◌, ◌-◌, ◌*◌, ◌/◌, ◌%◌, ◌^◌, ◌≤◌, ◌<◌, ◌≡◌, refl, ap, sym, ◌∙◌, List, [], ◌∷◌,
  get_or, map, arith, bit_xor,
}
use ggjs.Common.Bits.{agree_below, checks}
use ggjs.Common.Bits.Each.{bit, bit-op, bit_xor-IsBitwise}
use ggjs.Common.Int.{ℤ, pos, negsuc, sub_ℕ}
use ggjs.BigInt.Limb.{base, limb_bits, value, IsLimbs}
use ggjs.BigInt.Mp.Shift.{pow-add, pow_split}
use ggjs.BigInt.Repr.{sign, above, integer, ones}
use ggjs.BigInt.Arith.{negated}
use ggjs.BigInt.Arith.Add.{sign-le_one}
use ggjs.BigInt.Arith.Carry.{flip, flip-lt, value-flip_one}

unfoldable pub bit_ℤ : ℤ → ℕ → ℕ
bit_ℤ (pos n) k = bit n k
bit_ℤ (negsuc n) k = 1 - bit n k

-- Limb `i` of an array that goes on with its sign.
unfoldable pub digit : List ℕ → ℕ → ℕ
digit t i = get_or t i (negated (sign t))

zero-bit : (k : ℕ) → bit 0 k ≡ 0
zero-bit k = ap (λ q. q % 2) (zero-div (2 ^ k))

limb_low : (x v j : ℕ) → j < limb_bits → bit (x + base * v) j ≡ bit x j
limb_low x v j l =
    let p : ℕ = 2 ^ j in
    let q : ℕ = 2 ^ (63 - j) in
    let some : 0 < p = one-le-pow j 2 (omega arith) in
    let up : suc (63 - j) ≡ limb_bits - j = omega arith in
    let half : 2 ^ (limb_bits - j) ≡ q * 2 = ap (λ n. 2 ^ n) (sym up) ∙ pow-suc 2 (63 - j) in
    let whole : p * 2 ^ (limb_bits - j) ≡ base = pow_split j (omega arith) in
    let parts : x + base * v ≡ x + p * (2 * (q * v)) =
      omega (arith, ap (λ n. n * v) whole, ap (λ n. p * n * v) half) in
    let divided : (x + p * (2 * (q * v))) / p ≡ x / p + 2 * (q * v) =
      add-mul-div_left x (2 * (q * v)) some in
    ap (λ n. n / p % 2) parts ∙ ap (λ n. n % 2) divided ∙ omega arith

limb_high : (x v k : ℕ) → x < base → bit (x + base * v) (limb_bits + k) ≡ bit v k
limb_high x v k h =
    let some : 0 < base = omega arith in
    let divided : (x + base * v) / base ≡ v = add-mul-div_left x v some ∙ omega arith in
    ap (λ p. (x + base * v) / p % 2) (pow-add limb_bits k)
    ∙ ap (λ q. q % 2) (sym (div-div-eq-div-mul (x + base * v) base (2 ^ k)))
    ∙ ap (λ q. q / 2 ^ k % 2) divided

value-bit :
    (t : List ℕ)
    → IsLimbs t
    → (i j : ℕ) → j < limb_bits
    → bit (value t) (limb_bits * i + j) ≡ bit (get_or t i 0) j
unfolding value
value-bit [] h i j l = zero-bit (limb_bits * i + j) ∙ sym (zero-bit j)
value-bit (x ∷ xs) h zero j l =
    let e : limb_bits * 0 + j ≡ j = omega arith in
    ap (λ k. bit (x + base * value xs) k) e ∙ limb_low x (value xs) j l
value-bit (x ∷ xs) h (suc i) j l =
    let e : limb_bits * suc i + j ≡ limb_bits + (limb_bits * i + j) = omega arith in
    ap (λ k. bit (x + base * value xs) k) e
    ∙ limb_high x (value xs) (limb_bits * i + j) h.0
    ∙ value-bit xs h.1 i j l

pub negated-bit : (s j : ℕ) → s ≤ 1 → j < limb_bits → bit (negated s) j ≡ s
unfolding checks
negated-bit zero j h l = agree_below 64 (λ k. bit (negated 0) k) (λ k. 0) j refl l
negated-bit (suc zero) j h l = agree_below 64 (λ k. bit (negated 1) k) (λ k. 1) j refl l
negated-bit (suc (suc s)) j h l = absurd (omega arith)

flip-bit : (x j : ℕ) → j < limb_bits → bit (flip 1 x) j ≡ 1 - bit x j
unfolding checks
flip-bit x j l =
    bit-op bit_xor bit_xor-IsBitwise j x (negated 1)
    ∙ ap (λ n. bit_xor (bit x j) n) (negated-bit 1 j (omega arith) l)
    ∙ agree_below 2 (λ n. bit_xor n 1) (λ n. 1 - n) (bit x j) refl (omega arith)

get_or-flip :
    (t : List ℕ) (i j : ℕ)
    → j < limb_bits
    → 1 - bit (get_or (map (flip 1) t) i 0) j ≡ bit (get_or t i ones) j
get_or-flip [] i j l = ap (λ n. 1 - n) (zero-bit j) ∙ sym (negated-bit 1 j (omega arith) l)
get_or-flip (x ∷ xs) zero j l = omega (arith, flip-bit x j l)
get_or-flip (x ∷ xs) (suc i) j l = get_or-flip xs i j l

flip-IsLimbs : (t : List ℕ) → IsLimbs t → IsLimbs (map (flip 1) t)
flip-IsLimbs [] h = tt
flip-IsLimbs (x ∷ xs) h = (flip-lt 1 x (omega arith) h.0, flip-IsLimbs xs h.1)

sub_ℕ-negsuc : (v c a : ℕ) → c + v + 1 ≡ a → sub_ℕ v a ≡ negsuc c
sub_ℕ-negsuc v c a e = ground arith

sub_ℕ-pos : (v : ℕ) → sub_ℕ v 0 ≡ pos v
sub_ℕ-pos v = ground arith

above-zero : (t : List ℕ) → above 0 t ≡ 0
unfolding above
above-zero [] = refl
above-zero (x ∷ xs) = omega (arith, above-zero xs)

bits_lem :
    (t : List ℕ) (s i j : ℕ)
    → IsLimbs t
    → s ≤ 1
    → j < limb_bits
    → bit_ℤ (sub_ℕ (value t) (above s t)) (limb_bits * i + j) ≡ bit (get_or t i (negated s)) j
unfolding bit_ℤ
bits_lem t zero i j h b l =
    let plain : sub_ℕ (value t) (above 0 t) ≡ pos (value t) =
      rw (above-zero t) (sub_ℕ-pos (value t)) in
    rw plain (value-bit t h i j l)
bits_lem t (suc zero) i j h b l =
    let minus = sub_ℕ-negsuc (value t) (value (map (flip 1) t)) (above 1 t) (value-flip_one t h) in
    rw minus
      (ap (λ n. 1 - n) (value-bit (map (flip 1) t) (flip-IsLimbs t h) i j l) ∙ get_or-flip t i j l)
bits_lem t (suc (suc s)) i j h b l = absurd (omega arith)

pub bit_ℤ-integer :
    (t : List ℕ) (i j : ℕ)
    → IsLimbs t
    → j < limb_bits
    → bit_ℤ (integer t) (limb_bits * i + j) ≡ bit (digit t i) j
unfolding integer digit
bit_ℤ-integer t i j h l = bits_lem t (sign t) i j h (sign-le_one t h) l
