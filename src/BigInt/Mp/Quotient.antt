-- ===== src/BigInt/Mp/Quotient.antt =====
-- `mp_div1` of quickjs.c, as division of numbers.
use ggjs.Common.{ℕ, ◌+◌, ◌*◌, ◌/◌, ◌%◌, ◌<◌, ◌≡◌, List, [], ◌∷◌, length, arith, bit_or, ap}
use native.Mathlib.Nat.{div-lt_iff_lt-mul, mod-lt, div-add-mod', mod-eq_of_lt}
use ggjs.Common.Bits.{bit_or-shifted}
use ggjs.BigInt.Limb.{base, limb, dlimb, value, snoc, IsLimbs}
use ggjs.BigInt.Mp.{mp_div1}

fits : (r b : ℕ) → b < base → r < b → dlimb (r * base) ≡ r * base
fits r b hb hr = omega arith

below : (r x b : ℕ) → x < base → r < b → r * base + x < base * b
below r x b hx hr = omega arith

-- A remainder and the limb below it, divided by what exceeds the remainder: one limb.
digit_lem :
    (r x b : ℕ)
    → x < base
    → b < base
    → r < b
    → let a1 = bit_or (dlimb (r * base)) x in
      (limb (a1 / b) * b + limb (a1 % b) ≡ r * base + x) × (limb (a1 % b) < b)
digit_lem r x b hx hb hr =
    let join : bit_or (dlimb (r * base)) x ≡ r * base + x =
      omega (arith, ap (λ (t : ℕ). bit_or t x) (fits r b hb hr), bit_or-shifted 64 r x hx) in
    let n = r * base + x in
    let low : n / b < base = (div-lt_iff_lt-mul (omega arith)).1 (below r x b hx hr) in
    let rem : n % b < b = mod-lt n (omega arith) in
    let whole : limb (n / b) ≡ n / b = mod-eq_of_lt low in
    let rest : limb (n % b) ≡ n % b = mod-eq_of_lt (omega arith) in
    rw (join, whole, rest) (div-add-mod' n b, rem)

-- With a remainder that comes in from above, `mp_div1` writes the quotient by one limb and returns
-- the remainder; it writes limbs, as many as it read.
pub mp_div1-value :
    (xs : List ℕ) (b r : ℕ)
    → IsLimbs xs
    → b < base
    → r < b
    → (value (snoc xs r) ≡ value (mp_div1 xs b r).limbs * b + (mp_div1 xs b r).carry)
      × ((mp_div1 xs b r).carry < b)
      × IsLimbs (mp_div1 xs b r).limbs
      × (length (mp_div1 xs b r).limbs ≡ length xs)
unfolding mp_div1 value snoc
mp_div1-value [] b r hx hb hr = omega arith
mp_div1-value (x ∷ xs) b r hx hb hr =
    let ih = mp_div1-value xs b r hx.1 hb hr in
    let d = digit_lem (mp_div1 xs b r).carry x b hx.0 hb ih.1 in
    (omega (arith, ih.0, d.0), d.1, (omega arith, ih.2), omega (arith, ih.3))
