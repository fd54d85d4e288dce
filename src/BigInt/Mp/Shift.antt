-- ===== src/BigInt/Mp/Shift.antt =====
-- `mp_shl` and `mp_shr` of quickjs.c, as multiplication and division by a power of two.
use ggjs.Common.{
  ℕ, ◌+◌, ◌-◌, ◌*◌, ◌/◌, ◌%◌, ◌^◌, ◌≤◌, ◌<◌, ◌≡◌, List, [], ◌∷◌, length, arith, bit_or, ap, sym,
  ◌∙◌, zero, suc,
}
use ggjs.Common.Bits.{bit_or-shifted, bit_or-below, bit_and-low}
use native.Mathlib.Nat.{
  mod-lt, div-add-mod', pow-suc, pow-zero, one-le-pow, div-lt_iff_lt-mul, suc-add,
}
use ggjs.BigInt.Limb.{base, limb, limb_bits, value, snoc, total, IsLimbs}
use ggjs.BigInt.Mp.{shl_loop, mp_shl, shr_loop, mp_shr}

suc-pow : (a b : ℕ) → 2 ^ (suc a + b) ≡ 2 * 2 ^ (a + b)
suc-pow a b = rw suc-add (rw pow-suc (omega arith))

pub pow-add : (a b : ℕ) → 2 ^ (a + b) ≡ 2 ^ a * 2 ^ b
pow-add zero b = ground arith
pow-add (suc a) b = omega (arith, suc-pow a b, ap (λ (t : ℕ). t * 2 ^ b) (pow-suc 2 a), pow-add a b)

pub pow_mul : (a b : ℕ) → (2 ^ a) ^ b ≡ 2 ^ (a * b)
pow_mul a zero = rw (pow-zero (2 ^ a)) (let z : 0 ≡ a * 0 = omega arith in ap (λ t. 2 ^ t) z)
pow_mul a (suc b) =
    let more : a * suc b ≡ a * b + a = omega arith in
    pow-suc (2 ^ a) b
    ∙ ap (λ t. t * 2 ^ a) (pow_mul a b)
    ∙ sym (pow-add (a * b) a)
    ∙ sym (ap (λ t. 2 ^ t) more)

-- The two parts of a limb at a shift.
pub pow_split : (s : ℕ) → s ≤ limb_bits → 2 ^ s * 2 ^ (limb_bits - s) ≡ base
pow_split s h =
    let whole : s + (limb_bits - s) ≡ limb_bits = omega arith in
    sym (pow-add s (limb_bits - s)) ∙ ap (λ (t : ℕ). 2 ^ t) whole

-- A limb times one part: the low digits stay in the limb, the high ones leave it.
module _ (p q v : ℕ) (split : p * q ≡ base) (q-pos : 0 < q) (hv : v < base) where
  high_digits : v / q < p
  high_digits = (div-lt_iff_lt-mul q-pos).1 (omega arith)

  low_digits : v % q * p + p ≤ base
  low_digits = grind (arith, mod-lt v q-pos)

  shifted : v * p ≡ base * (v / q) + v % q * p
  shifted = omega (arith, ap (λ (t : ℕ). t * p) (div-add-mod' v q), ap (λ (t : ℕ). v / q * t) split)

  limb-shifted : limb (v * p) ≡ v % q * p
  limb-shifted = omega (arith, shifted, low_digits, high_digits)

pow_pos : (k : ℕ) → 0 < 2 ^ k
pow_pos k = one-le-pow k 2 (omega arith)

-- One round of `mp_shl`: with what leaves the limb at the top, it is the shifted limb and `l`.
shl_round :
    (s v l : ℕ)
    → s ≤ limb_bits
    → v < base
    → l < 2 ^ s
    → (bit_or (limb (v * 2 ^ s)) l + base * (v / 2 ^ (limb_bits - s)) ≡ v * 2 ^ s + l)
      × (bit_or (limb (v * 2 ^ s)) l < base)
      × (v / 2 ^ (limb_bits - s) < 2 ^ s)
shl_round s v l hs hv hl =
    let q : ℕ = 2 ^ (limb_bits - s) in
    let split = pow_split s hs in
    let pos = pow_pos (limb_bits - s) in
    let kept = limb-shifted (2 ^ s) q v split pos hv in
    let low = low_digits (2 ^ s) q v split pos hv in
    let all = shifted (2 ^ s) q v split pos hv in
    rw (kept, bit_or-shifted s (v % q) l hl)
      (omega (arith, all), omega (arith, low), high_digits (2 ^ s) q v split pos hv)

shl_loop-value :
    (s l : ℕ) (xs : List ℕ)
    → s ≤ limb_bits
    → IsLimbs xs
    → l < 2 ^ s
    → (total (shl_loop s l xs) ≡ value xs * 2 ^ s + l)
      × IsLimbs (shl_loop s l xs).limbs
      × (length (shl_loop s l xs).limbs ≡ length xs)
      × ((shl_loop s l xs).carry < 2 ^ s)
unfolding shl_loop value snoc
shl_loop-value s l [] hs hx hl = omega arith
shl_loop-value s l (v ∷ vs) hs hx hl =
    let r = shl_round s v l hs hx.0 hl in
    let ih = shl_loop-value s (v / 2 ^ (limb_bits - s)) vs hs hx.1 r.2 in
    (omega (arith, r.0, ih.0), (r.1, ih.1), omega (arith, ih.2), ih.3)

-- For a shift within the limb (1 to 63) `mp_shl` multiplies by the power of two, the returned
-- limb on top; it writes limbs, as many as it read, and returns less than the power.
pub mp_shl-value :
    (xs : List ℕ) (s : ℕ)
    → 0 < s
    → s < limb_bits
    → IsLimbs xs
    → (total (mp_shl xs s) ≡ value xs * 2 ^ s)
      × IsLimbs (mp_shl xs s).limbs
      × (length (mp_shl xs s).limbs ≡ length xs)
      × ((mp_shl xs s).carry < 2 ^ s)
unfolding mp_shl
mp_shl-value xs s pos hs hx =
    let r = shl_loop-value s 0 xs (omega arith) hx (pow_pos s) in
    (omega (arith, r.0), r.1, r.2, r.3)

-- One round of `mp_shr`: the limb above gives its low bits, and the limb keeps its own as the
-- remainder.
shr_round :
    (s a l : ℕ)
    → s ≤ limb_bits
    → a < base
    → l < base
    → let r = bit_or (a / 2 ^ s) (limb (l * 2 ^ (limb_bits - s))) in
      (r * 2 ^ s + a % 2 ^ s ≡ a + base * (l % 2 ^ s)) × (r < base)
shr_round s a l hs ha hl =
    let p : ℕ = 2 ^ s in
    let q : ℕ = 2 ^ (limb_bits - s) in
    let split = pow_split s hs in
    let split' : q * p ≡ base = omega (arith, split) in
    let kept = limb-shifted q p l split' (pow_pos s) hl in
    let low = low_digits q p l split' (pow_pos s) hl in
    let small = high_digits q p a split' (pow_pos s) ha in
    rw (kept, bit_or-below (limb_bits - s) (l % p) (a / p) small)
      (omega (arith, div-add-mod' a p, ap (λ (t : ℕ). l % p * t) split), omega (arith, low, small))

shr_loop-value :
    (xs : List ℕ) (s high : ℕ)
    → s ≤ limb_bits
    → IsLimbs xs
    → high < base
    → (value (snoc xs (high % 2 ^ s))
        ≡ value (shr_loop xs s high).limbs * 2 ^ s + (shr_loop xs s high).carry % 2 ^ s)
      × IsLimbs (shr_loop xs s high).limbs
      × (length (shr_loop xs s high).limbs ≡ length xs)
      × ((shr_loop xs s high).carry < base)
unfolding shr_loop value snoc
shr_loop-value [] s high hs hx hh = omega arith
shr_loop-value (x ∷ xs) s high hs hx hh =
    let ih = shr_loop-value xs s high hs hx.1 hh in
    let r = shr_round s x (shr_loop xs s high).carry hs hx.0 ih.3 in
    (omega (arith, r.0, ih.0), (r.1, ih.1), omega (arith, ih.2), hx.0)

-- For a shift within the limb (1 to 63) `mp_shr` divides by the power of two an array with the
-- low bits of `high` above it, and returns the remainder; it writes limbs, as many as it read.
pub mp_shr-value :
    (xs : List ℕ) (s high : ℕ)
    → 0 < s
    → s < limb_bits
    → IsLimbs xs
    → high < base
    → (value (snoc xs (high % 2 ^ s))
        ≡ value (mp_shr xs s high).limbs * 2 ^ s + (mp_shr xs s high).carry)
      × ((mp_shr xs s high).carry < 2 ^ s)
      × IsLimbs (mp_shr xs s high).limbs
      × (length (mp_shr xs s high).limbs ≡ length xs)
unfolding mp_shr
mp_shr-value xs s high pos hs hx hh =
    let r = shr_loop-value xs s high (omega arith) hx hh in
    let mask = bit_and-low s (shr_loop xs s high).carry in
    (omega (arith, r.0, mask), rw mask (mod-lt (shr_loop xs s high).carry (pow_pos s)), r.1, r.2)
