-- ===== src/BigInt/Mp/Product.antt =====
-- `mp_mul1`, `mp_add_mul1` and `mp_sub_mul1` of quickjs.c, as products of numbers.
use ggjs.Common.{ℕ, ◌+◌, ◌-◌, ◌*◌, ◌/◌, ◌^◌, ◌<◌, ◌≡◌, List, [], ◌∷◌, length, suc, arith}
use ggjs.BigInt.Limb.{base, snoc-IsLimbs, length-snoc, value, snoc, total, limb, dlimb, IsLimbs}
use ggjs.BigInt.Mp.{
  mp_mul1, add_mul1_loop, mp_add_mul1, sub_mul1_loop, mp_sub_mul1, mul_rows, mp_mul_basecase,
}

-- The product of two limbs leaves room for two more in a `js_dlimb_t`.
product_bound : (x y : ℕ) → x < base → y < base → x * y + (base - 1) + (base - 1) < 2 ^ 128
product_bound x y hx hy = grind arith

-- `mp_mul1` writes the product with one limb plus the limb that comes in, the returned limb on
-- top; it writes limbs, as many as it read, and returns one.
pub mp_mul1-value :
    (xs : List ℕ) (b l : ℕ)
    → IsLimbs xs
    → b < base
    → l < base
    → (total (mp_mul1 xs b l) ≡ value xs * b + l)
      × IsLimbs (mp_mul1 xs b l).limbs
      × (length (mp_mul1 xs b l).limbs ≡ length xs)
      × ((mp_mul1 xs b l).carry < base)
unfolding mp_mul1 value snoc
mp_mul1-value [] b l hx hb hl = omega arith
mp_mul1-value (x ∷ xs) b l hx hb hl =
    let fits = product_bound x b hx.0 hb in
    let next : ℕ = dlimb (x * b + l) / base in
    let ih = mp_mul1-value xs b (dlimb (x * b + l) / base) hx.1 hb (omega arith) in
    (omega (arith, fits, ih.0), (omega arith, ih.1), omega (arith, ih.2), ih.3)

add_mul1_loop-value :
    (xs ys : List ℕ) (b l : ℕ)
    → length xs ≡ length ys
    → IsLimbs xs
    → IsLimbs ys
    → b < base
    → l < base
    → (total (add_mul1_loop xs ys b l) ≡ value xs + value ys * b + l)
      × IsLimbs (add_mul1_loop xs ys b l).limbs
      × (length (add_mul1_loop xs ys b l).limbs ≡ length xs)
      × ((add_mul1_loop xs ys b l).carry < base)
unfolding add_mul1_loop value snoc
add_mul1_loop-value [] [] b l e hx hy hb hl = omega arith
add_mul1_loop-value [] (y ∷ ys) b l e hx hy hb hl = absurd (omega arith)
add_mul1_loop-value (x ∷ xs) [] b l e hx hy hb hl = absurd (omega arith)
add_mul1_loop-value (x ∷ xs) (y ∷ ys) b l e hx hy hb hl =
    let fits = product_bound y b hy.0 hb in
    let ih =
      add_mul1_loop-value xs ys b (dlimb (y * b + l + x) / base) (omega arith) hx.1 hy.1 hb
        (omega arith) in
    (omega (arith, fits, ih.0), (omega arith, ih.1), omega (arith, ih.2), ih.3)

sub_mul1_loop-value :
    (xs ys : List ℕ) (b l : ℕ)
    → length xs ≡ length ys
    → IsLimbs xs
    → IsLimbs ys
    → b < base
    → l < base
    → (value (snoc xs (sub_mul1_loop xs ys b l).carry)
        ≡ value (sub_mul1_loop xs ys b l).limbs + value ys * b + l)
      × IsLimbs (sub_mul1_loop xs ys b l).limbs
      × (length (sub_mul1_loop xs ys b l).limbs ≡ length xs)
      × ((sub_mul1_loop xs ys b l).carry < base)
unfolding sub_mul1_loop value snoc
sub_mul1_loop-value [] [] b l e hx hy hb hl = omega arith
sub_mul1_loop-value [] (y ∷ ys) b l e hx hy hb hl = absurd (omega arith)
sub_mul1_loop-value (x ∷ xs) [] b l e hx hy hb hl = absurd (omega arith)
sub_mul1_loop-value (x ∷ xs) (y ∷ ys) b l e hx hy hb hl =
    let fits = product_bound y b hy.0 hb in
    let t : ℕ = dlimb (x + 2 ^ 128 + 2 ^ 128 - y * b - l) in
    let ih =
      sub_mul1_loop-value xs ys b (limb (base - t / base)) (omega arith) hx.1 hy.1 hb
        (omega arith) in
    (omega (arith, fits, ih.0), (omega arith, ih.1), omega (arith, ih.2), ih.3)

-- `mp_add_mul1` adds the product of an array and a limb to an array of the same length, the
-- returned limb on top; it writes limbs, as many as it read, and returns one.
pub mp_add_mul1-value :
    (xs ys : List ℕ) (b : ℕ)
    → length xs ≡ length ys
    → IsLimbs xs
    → IsLimbs ys
    → b < base
    → (total (mp_add_mul1 xs ys b) ≡ value xs + value ys * b)
      × IsLimbs (mp_add_mul1 xs ys b).limbs
      × (length (mp_add_mul1 xs ys b).limbs ≡ length xs)
      × ((mp_add_mul1 xs ys b).carry < base)
unfolding mp_add_mul1
mp_add_mul1-value xs ys b e hx hy hb =
    let s = add_mul1_loop-value xs ys b 0 e hx hy hb (omega arith) in
    (omega (arith, s.0), s.1, s.2, s.3)

-- `mp_sub_mul1` subtracts the product of an array and a limb from an array of the same length:
-- with the returned limb on top of the first operand it is exact. It writes limbs, as many as it
-- read, and returns one.
pub mp_sub_mul1-value :
    (xs ys : List ℕ) (b : ℕ)
    → length xs ≡ length ys
    → IsLimbs xs
    → IsLimbs ys
    → b < base
    → (value (snoc xs (mp_sub_mul1 xs ys b).carry)
        ≡ value (mp_sub_mul1 xs ys b).limbs + value ys * b)
      × IsLimbs (mp_sub_mul1 xs ys b).limbs
      × (length (mp_sub_mul1 xs ys b).limbs ≡ length xs)
      × ((mp_sub_mul1 xs ys b).carry < base)
unfolding mp_sub_mul1
mp_sub_mul1-value xs ys b e hx hy hb =
    let s = sub_mul1_loop-value xs ys b 0 e hx hy hb (omega arith) in
    (omega (arith, s.0), s.1, s.2, s.3)

mul_rows-value :
    (op1 ys window : List ℕ)
    → length window ≡ suc (length op1)
    → IsLimbs op1
    → IsLimbs ys
    → IsLimbs window
    → (value (mul_rows op1 ys window) ≡ value window + base * (value op1 * value ys))
      × IsLimbs (mul_rows op1 ys window)
      × (length (mul_rows op1 ys window) ≡ suc (length op1) + length ys)
unfolding mul_rows value
mul_rows-value op1 ys [] e h1 hy hw = absurd (omega arith)
mul_rows-value op1 [] (x ∷ window) e h1 hy hw = (omega arith, hw, omega arith)
mul_rows-value op1 (y ∷ ys) (x ∷ window) e h1 hy hw =
    let row = mp_add_mul1-value window op1 y (omega arith) hw.1 h1 hy.0 in
    let r = mp_add_mul1 window op1 y in
    let ih =
      mul_rows-value op1 ys (snoc r.limbs r.carry)
        (omega (arith, length-snoc r.limbs r.carry, row.2)) h1 hy.1
        (snoc-IsLimbs r.limbs r.carry row.1 row.3) in
    (omega (arith, row.0, ih.0), (hw.0, ih.1), omega (arith, ih.2))

-- `mp_mul_basecase` writes the product of two arrays, the second of them not empty, in as many
-- limbs as the two have together.
pub mp_mul_basecase-value :
    (op1 op2 : List ℕ)
    → 0 < length op2
    → IsLimbs op1
    → IsLimbs op2
    → (value (mp_mul_basecase op1 op2) ≡ value op1 * value op2)
      × IsLimbs (mp_mul_basecase op1 op2)
      × (length (mp_mul_basecase op1 op2) ≡ length op1 + length op2)
unfolding mp_mul_basecase value
mp_mul_basecase-value op1 [] pos h1 h2 = absurd (omega arith)
mp_mul_basecase-value op1 (y ∷ ys) pos h1 h2 =
    let row = mp_mul1-value op1 y 0 h1 h2.0 (omega arith) in
    let r = mp_mul1 op1 y 0 in
    let rows =
      mul_rows-value op1 ys (snoc r.limbs r.carry)
        (omega (arith, length-snoc r.limbs r.carry, row.2)) h1 h2.1
        (snoc-IsLimbs r.limbs r.carry row.1 row.3) in
    (omega (arith, row.0, rows.0), rows.1, omega (arith, rows.2))
