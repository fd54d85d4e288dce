-- ===== src/BigInt/Shift/Right.antt =====
-- The parts of `js_bigint_shr`: the limbs that it drops, and the shift within a limb.
use native.Mathlib.Nat.{
  one-le-pow, mul-le-mul_left, mul-le-mul_right, pow-le-pow_right, mod-eq_of_lt,
}
use ggjs.Common.{
  ℕ, zero, suc, ◌+◌, ◌-◌, ◌*◌, ◌/◌, ◌%◌, ◌^◌, ◌≤◌, ◌<◌, ◌≡◌, refl, ap, sym, ◌∙◌, List, [], ◌∷◌,
  length, take, drop, get_or, arith, take-append-drop, length-take_le, length-drop,
}
use ggjs.Common.Bits.{agree_below, checks}
use ggjs.Common.Int.{ℤ, pos, pos_part, neg_part, sub_ℕ, sub_ℕ_ext, sub_ℕ_parts, ◌*ℤ◌, ◌+ℤ◌}
use ggjs.BigInt.Limb.{base, limb_bits, value}
use ggjs.BigInt.Mp.{mp_shr}
use ggjs.BigInt.Mp.Shift.{mp_shr-value}
use ggjs.BigInt.Repr.{sign, integer}
use ggjs.BigInt.Repr.Extend.{value-snoc}
use ggjs.BigInt.Repr.Take.{take-IsLimbs}
use ggjs.BigInt.Repr.Span.{
  span, above-span, value-append, value-lt_span, IsSignOf, sign-IsSignOf, base_pow_add,
  drop-IsLimbs,
}
use ggjs.BigInt.Arith.{negated}
use ggjs.BigInt.Arith.Extend.{IsBig}
use ggjs.BigInt.Arith.Add.{sign-le_one}
use ggjs.BigInt.Shift.Pad.{sub_ℕ-mul}

-- `t` is `a` divided by `m`, rounded down.
pub IsFloor : (a : ℤ) (m : ℕ) (t : ℤ) → Type 0
IsFloor a m t = (rem : ℕ) × (rem < m) × (a ≡ t *ℤ pos m +ℤ pos rem)

sub_ℕ-add : (x y r : ℕ) → sub_ℕ x y +ℤ pos r ≡ sub_ℕ (x + r) y
unfolding ◌+ℤ◌
sub_ℕ-add x y r =
    let p : ℕ = pos_part (sub_ℕ x y) in
    let n : ℕ = neg_part (sub_ℕ x y) in
    sub_ℕ_ext (p + r) (n + 0) (x + r) y (omega (arith, sub_ℕ_parts x y))

pub floor_lem :
    (a t : List ℕ) (m rem : ℕ)
    → rem < m
    → value a + sign t * span t * m ≡ value t * m + rem + sign a * span a
    → IsFloor (integer a) m (integer t)
unfolding integer IsFloor
floor_lem a t m rem l e =
    let ta = above-span (sign t) t in
    let aa = above-span (sign a) a in
    (
      rem,
      l,
      rw (ta, aa)
          (sub_ℕ_ext (value a) (sign a * span a) (value t * m + rem) (sign t * span t * m)
              (omega (arith, e))
            ∙ sym (sub_ℕ-add (value t * m) (sign t * span t * m) rem)
            ∙ ap (λ z. z +ℤ pos rem) (sym (sub_ℕ-mul (value t) (sign t * span t) m))),
    )

-- The sign stays when its bits come in from above.
sign_lem :
    (v r c p x s s' : ℕ)
    → 2 ≤ p
    → c < p
    → IsSignOf s v x
    → IsSignOf s' r x
    → v + s * ((p - 1) * x) ≡ r * p + c
    → s' ≡ s
sign_lem v r c p x zero zero many small i j e = refl
sign_lem v r c p x (suc zero) (suc zero) many small i j e = refl
sign_lem v r c p x zero (suc zero) many small i j e =
    absurd (omega (arith, i.under refl, j.over refl, mul-le-mul_left r many))
sign_lem v r c p x (suc zero) zero many small i j e =
    let less : 2 * r + 1 ≤ x = omega (arith, j.under refl) in
    let some : 1 ≤ x = omega arith in
    let less_p = mul-le-mul_right p less in
    let some_p = mul-le-mul_left (p - 1) some in
    let minus : p - 1 + 1 ≡ p = omega arith in
    let minus_x = ap (λ n. n * x) minus in
    absurd (omega (arith, i.over refl, e, less_p, some_p, minus_x))
sign_lem v r c p x (suc (suc s)) s' many small i j e = absurd (omega (arith, i.bit))
sign_lem v r c p x s (suc (suc s')) many small i j e = absurd (omega (arith, j.bit))

negated-lt : (s : ℕ) → s ≤ 1 → negated s < base
negated-lt s h = omega arith

-- The bits above a limb that is shifted in.
negated-low :
    (s shift : ℕ) → s ≤ 1 → shift < limb_bits → negated s % 2 ^ shift ≡ s * (2 ^ shift - 1)
unfolding checks
negated-low zero shift h l =
    let some : 0 < 2 ^ shift = one-le-pow shift 2 (omega arith) in mod-eq_of_lt some ∙ omega arith
negated-low (suc zero) shift h l =
    agree_below 64 (λ k. (base - 1) % 2 ^ k) (λ k. 2 ^ k - 1) shift refl l ∙ omega arith
negated-low (suc (suc s)) shift h l = absurd (omega arith)

-- The shift within a limb.
pub within :
    (x : List ℕ) (shift : ℕ)
    → IsBig x
    → 0 < shift
    → shift < limb_bits
    → let r = mp_shr x shift (negated (sign x)) in
      IsBig r.limbs
      × (sign r.limbs ≡ sign x)
      × (span r.limbs ≡ span x)
      × (r.carry < 2 ^ shift)
      × (value x + sign x * span x * 2 ^ shift
          ≡ value r.limbs * 2 ^ shift + r.carry + sign x * span x)
within x shift hx some small =
    let two : 0 < 2 = omega arith in
    let many : 2 ^ 1 ≤ 2 ^ shift = pow-le-pow_right two some in
    let s : ℕ = sign x in
    let bit = sign-le_one x hx.0 in
    let r = mp_shr x shift (negated s) in
    let (whole, low, limbs, len) =
      mp_shr-value x shift (negated s) some small hx.0 (negated-lt s bit) in
    let top = value-snoc x (negated s % 2 ^ shift) in
    let high = above-span (negated s % 2 ^ shift) x in
    let mask = negated-low s shift bit small in
    let masked = ap (λ n. n * span x) mask in
    let same : span r.limbs ≡ span x = ap (λ n. base ^ n) len in
    let long : 0 < length r.limbs = omega (arith, len, hx.1) in
    let after : IsSignOf (sign r.limbs) (value r.limbs) (span x) =
      rw same at (sign-IsSignOf r.limbs limbs long) in
    let before = sign-IsSignOf x hx.0 hx.1 in
    let parts : value x + s * ((2 ^ shift - 1) * span x) ≡ value r.limbs * 2 ^ shift + r.carry =
      omega (arith, whole, top, high, masked) in
    let kept =
      sign_lem (value x) (value r.limbs) r.carry (2 ^ shift) (span x) s (sign r.limbs) many low
        before after parts in
    let less : 2 ^ shift - 1 + 1 ≡ 2 ^ shift = omega arith in
    let scaled = ap (λ n. s * (n * span x)) less in
    ((limbs, long), kept, same, low, omega (arith, parts, scaled))

-- The limbs that are kept.
get_or-drop : (d : ℕ) (t : List ℕ) (i : ℕ) → get_or (drop d t) i 0 ≡ get_or t (d + i) 0
get_or-drop zero t i = ap (λ n. get_or t n 0) (omega arith)
get_or-drop (suc d) [] i = refl
get_or-drop (suc d) (x ∷ t) i =
    let up : suc d + i ≡ suc (d + i) = omega arith in rw up (get_or-drop d t i)

sign-drop : (d : ℕ) (t : List ℕ) → d < length t → sign (drop d t) ≡ sign t
unfolding sign
sign-drop d t l =
    let same : d + (length (drop d t) - 1) ≡ length t - 1 = omega (arith, length-drop d t) in
    ap (λ n. n / 2 ^ 63) (get_or-drop d t (length (drop d t) - 1) ∙ ap (λ n. get_or t n 0) same)

pub kept_limbs :
    (a : List ℕ) (d : ℕ)
    → IsBig a
    → d < length a
    → IsBig (drop d a)
      × (sign (drop d a) ≡ sign a)
      × (span a ≡ base ^ d * span (drop d a))
      × (value a ≡ value (take d a) + base ^ d * value (drop d a))
      × (value (take d a) < base ^ d)
kept_limbs a d ha l =
    let low : List ℕ = take d a in
    let high : List ℕ = drop d a in
    let low_length : length low ≡ d = length-take_le d a (omega arith) in
    let high_length = length-drop d a in
    let parts : length a ≡ d + length high = omega (arith, high_length) in
    (
      (drop-IsLimbs d a ha.0, omega (arith, high_length)),
      sign-drop d a l,
      ap (λ n. base ^ n) parts ∙ base_pow_add d (length high),
      ap value (sym (take-append-drop d a))
          ∙ value-append low high
          ∙ ap (λ n. value low + base ^ n * value high) low_length,
      rw low_length at (value-lt_span low (take-IsLimbs d a ha.0)),
    )
