-- ===== src/BigInt/Repr/Span.antt =====
-- What a sign bit says of an array in two's complement.
use native.Mathlib.Nat.{pow-suc, pow-zero, mul-le-mul_left}
use ggjs.Common.{
  ℕ, suc, ◌+◌, ◌-◌, ◌*◌, ◌/◌, ◌^◌, ◌≤◌, ◌<◌, ◌≡◌, ap, sym, ◌∙◌, List, [], ◌∷◌, ◌++◌, length, get_or,
  take, drop, arith, length-take_le, zero,
}
use ggjs.BigInt.Limb.{base, value, IsLimbs, snoc}
use ggjs.BigInt.Repr.{sign, above}
use ggjs.BigInt.Repr.Extend.{value-snoc}
use ggjs.BigInt.Repr.Take.{take-suc, take-length, take-IsLimbs, get_or-lt}

-- The power of the base above an array.
abbrev pub span : List ℕ → ℕ
span t = base ^ length t

pub above-span : (s : ℕ) (t : List ℕ) → above s t ≡ s * span t
unfolding above
above-span s [] = rw (pow-zero base) (omega arith)
above-span s (x ∷ xs) =
    rw (pow-suc base (length xs)) (omega (arith, ap (λ n. base * n) (above-span s xs)))

pub value-lt_span : (t : List ℕ) → IsLimbs t → value t < span t
unfolding value
value-lt_span [] h = rw (pow-zero base) (omega arith)
value-lt_span (x ∷ xs) h = rw (pow-suc base (length xs)) (omega (arith, value-lt_span xs h.1, h.0))

pub base_pow_add : (m n : ℕ) → base ^ (m + n) ≡ base ^ m * base ^ n
base_pow_add zero n = rw (pow-zero base) (let e : zero + n ≡ n = omega arith in rw e (omega arith))
base_pow_add (suc m) n =
    let e : suc m + n ≡ suc (m + n) = omega arith in
    rw (e, pow-suc base (m + n), pow-suc base m, base_pow_add m n) (omega arith)

pub drop-IsLimbs : (l : ℕ) (t : List ℕ) → IsLimbs t → IsLimbs (drop l t)
drop-IsLimbs zero t h = h
drop-IsLimbs (suc l) [] h = tt
drop-IsLimbs (suc l) (x ∷ xs) h = drop-IsLimbs l xs h.1

pub value-append : (xs ys : List ℕ) → value (xs ++ ys) ≡ value xs + span xs * value ys
unfolding value
value-append [] ys = rw (pow-zero base) (omega arith)
value-append (x ∷ xs) ys = rw (pow-suc base (length xs)) (omega (arith, value-append xs ys))

-- `s` says whether `v` is in the upper half of the numbers below `x`.
pub record IsSignOf (s v x : ℕ) : Type 0 where
  pub bit : s ≤ 1
  pub under : s ≡ 0 → 2 * v < x
  pub over : s ≡ 1 → x ≤ 2 * v
  pub below : v < x

top-IsSignOf :
    (low p top : ℕ) → low < p → top < base → IsSignOf (top / 2 ^ 63) (low + top * p) (p * base)
top-IsSignOf low p top hl ht = record {
  bit = omega arith;
  under = λ e. let small : top ≤ 2 ^ 63 - 1 = omega arith in omega (arith, mul-le-mul_left p small);
  over = λ e. let large : 2 ^ 63 ≤ top = omega arith in omega (arith, mul-le-mul_left p large);
  below = let word : top ≤ base - 1 = omega arith in omega (arith, mul-le-mul_left p word);
}

pub sign-IsSignOf : (t : List ℕ) → IsLimbs t → 0 < length t → IsSignOf (sign t) (value t) (span t)
unfolding sign
sign-IsSignOf t h some =
    let l : ℕ = length t - 1 in
    let low : List ℕ = take l t in
    let top : ℕ = get_or t l 0 in
    let len : suc l ≡ length t = omega arith in
    let below : length low ≡ l = length-take_le l t (omega arith) in
    let whole : t ≡ snoc low top =
      sym (take-length t) ∙ ap (λ n. take n t) (sym len) ∙ take-suc l t (omega arith) in
    let v : value t ≡ value low + top * span low =
      ap value whole ∙ value-snoc low top ∙ ap (λ n. value low + n) (above-span top low) in
    let w : span t ≡ span low * base =
      ap (λ n. base ^ n) (sym len) ∙ pow-suc base l ∙ ap (λ n. base ^ n * base) (sym below) in
    rw (v, w)
      (top-IsSignOf (value low) (span low) top (value-lt_span low (take-IsLimbs l t h))
        (get_or-lt t l h))
