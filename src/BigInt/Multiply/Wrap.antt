-- ===== src/BigInt/Multiply/Wrap.antt =====
-- The product in two's complement from the product of the numbers, and its sign.
use native.Mathlib.Nat.{mul-le-mul}
use ggjs.Common.{ℕ, zero, suc, ◌+◌, ◌-◌, ◌*◌, ◌≤◌, ◌≡◌, refl, ap, arith}
use ggjs.Common.Int.{ℤ, pos_part, neg_part, sub_ℕ, sub_ℕ_ext, sub_ℕ_parts, ◌*ℤ◌}
use ggjs.BigInt.Repr.Span.{IsSignOf}

-- A number below `x` that is a multiple of it and at most a quarter of it more.
more_lem : (v s m w x : ℕ) → IsSignOf s v x → 4 * w ≤ x → v ≡ w + m * x → v ≡ s * x + w
more_lem v zero zero w x i q e = omega arith
more_lem v (suc zero) zero w x i q e = absurd (omega (arith, i.over refl, i.below))
more_lem v (suc (suc s)) zero w x i q e = absurd (omega (arith, i.bit))
more_lem v s (suc m) w x i q e = absurd (omega (arith, i.below))

-- And one that is at most a quarter less.
less_lem : (v s m w x : ℕ) → IsSignOf s v x → 4 * w ≤ x → v + w ≡ m * x → v + w ≡ s * x
less_lem v zero zero w x i q e = omega arith
less_lem v zero (suc zero) w x i q e = absurd (omega (arith, i.under refl, i.below))
less_lem v (suc zero) zero w x i q e = absurd (omega (arith, i.over refl, i.below))
less_lem v (suc zero) (suc zero) w x i q e = omega arith
less_lem v (suc (suc s)) m w x i q e = absurd (omega (arith, i.bit))
less_lem v s (suc (suc m)) w x i q e = absurd (omega (arith, i.below))

shifted : (v s m w x : ℕ) → IsSignOf s v x → 4 * w ≤ x → v + x ≡ w + m * x → v ≡ s * x + w
shifted v s zero w x i q e = absurd (omega (arith, i.below))
shifted v s (suc m) w x i q e = more_lem v s m w x i q (omega arith)

quarter : (a b h k : ℕ) → 2 * a ≤ h → 2 * b ≤ k → 4 * (a * b) ≤ h * k
quarter a b h k p q = omega (arith, mul-le-mul p q)

-- What is left of a number above the half.
rest_lem : (a h : ℕ) → IsSignOf 1 a h → (h - a + a ≡ h) × (2 * (h - a) ≤ h)
rest_lem a h i = (omega (arith, i.below), omega (arith, i.over refl))

module _ (va vb v s m h k : ℕ) (c : IsSignOf s v (h * k)) where
  neither :
      IsSignOf 0 va h → IsSignOf 0 vb k → v ≡ va * vb + m * (h * k) → v ≡ s * (h * k) + va * vb
  neither a b e =
      more_lem v s m (va * vb) (h * k) c
        (quarter va vb h k (omega (arith, a.under refl)) (omega (arith, b.under refl))) e

  first_lem :
      IsSignOf 1 va h
      → IsSignOf 0 vb k
      → v + h * vb ≡ va * vb + m * (h * k)
      → v + h * vb ≡ s * (h * k) + va * vb
  first_lem a b e =
      let u : ℕ = h - va in
      let (eu, du) = rest_lem va h a in
      let p : (u + va) * vb ≡ h * vb = ap (λ n. n * vb) eu in
      let q = quarter u vb h k du (omega (arith, b.under refl)) in
      let less = less_lem v s m (u * vb) (h * k) c q (omega (arith, p)) in omega (arith, p, less)

  second_lem :
      IsSignOf 0 va h
      → IsSignOf 1 vb k
      → v + k * va ≡ va * vb + m * (h * k)
      → v + k * va ≡ s * (h * k) + va * vb
  second_lem a b e =
      let y : ℕ = k - vb in
      let (ey, dy) = rest_lem vb k b in
      let p : (y + vb) * va ≡ k * va = ap (λ n. n * va) ey in
      let q = quarter va y h k (omega (arith, a.under refl)) dy in
      let less = less_lem v s m (va * y) (h * k) c q (omega (arith, p)) in omega (arith, p, less)

both_lem :
    (va vb v s m h k : ℕ)
    → IsSignOf s v (h * k)
    → IsSignOf 1 va h
    → IsSignOf 1 vb k
    → v + h * vb + k * va ≡ va * vb + m * (h * k)
    → v + h * vb + k * va ≡ s * (h * k) + va * vb + h * k
both_lem va vb v s m h k c a b e =
    let u : ℕ = h - va in
    let y : ℕ = k - vb in
    let (eu, du) = rest_lem va h a in
    let (ey, dy) = rest_lem vb k b in
    let p : (u + va) * vb ≡ h * vb = ap (λ n. n * vb) eu in
    let p' : (y + vb) * va ≡ k * va = ap (λ n. n * va) ey in
    let x : (u + va) * k ≡ h * k = ap (λ n. n * k) eu in
    let x' : u * (y + vb) ≡ u * k = ap (λ n. u * n) ey in
    let q = quarter u y h k du dy in
    let over : v + h * k ≡ u * y + m * (h * k) = omega (arith, p, p', x, x') in
    let more = shifted v s m (u * y) (h * k) c q over in omega (arith, p, p', x, x', more)

-- What the corrections leave is the product of the integers.
pub wrapped :
    (va vb v sa sb s m h k : ℕ)
    → IsSignOf sa va h
    → IsSignOf sb vb k
    → IsSignOf s v (h * k)
    → v + sa * (h * vb) + sb * (k * va) ≡ va * vb + m * (h * k)
    → v + sa * (h * vb) + sb * (k * va) ≡ s * (h * k) + va * vb + sa * sb * (h * k)
wrapped va vb v zero zero s m h k a b c e =
    omega (arith, neither va vb v s m h k c a b (omega arith))
wrapped va vb v zero (suc zero) s m h k a b c e =
    omega (arith, second_lem va vb v s m h k c a b (omega arith))
wrapped va vb v (suc zero) zero s m h k a b c e =
    omega (arith, first_lem va vb v s m h k c a b (omega arith))
wrapped va vb v (suc zero) (suc zero) s m h k a b c e =
    omega (arith, both_lem va vb v s m h k c a b (omega arith))
wrapped va vb v (suc (suc sa)) sb s m h k a b c e = absurd (omega (arith, a.bit))
wrapped va vb v sa (suc (suc sb)) s m h k a b c e = absurd (omega (arith, b.bit))

product_parts :
    (p n q r a b c d : ℕ)
    → p + b ≡ n + a
    → q + d ≡ r + c
    → p * q + n * r + (a * d + b * c) ≡ a * c + b * d + (p * r + n * q)
product_parts p n q r a b c d ex ey =
    let e1 : (p + b) * q ≡ (n + a) * q = ap (λ t. t * q) ex in
    let e2 : (p + b) * r ≡ (n + a) * r = ap (λ t. t * r) ex in
    let e3 : a * (q + d) ≡ a * (r + c) = ap (λ t. a * t) ey in
    let e4 : b * (q + d) ≡ b * (r + c) = ap (λ t. b * t) ey in omega (arith, e1, e2, e3, e4)

pub sub_ℕ-mul-sub_ℕ : (a b c d : ℕ) → sub_ℕ a b *ℤ sub_ℕ c d ≡ sub_ℕ (a * c + b * d) (a * d + b * c)
unfolding ◌*ℤ◌
sub_ℕ-mul-sub_ℕ a b c d =
    let x : ℤ = sub_ℕ a b in
    let y : ℤ = sub_ℕ c d in
    let p : ℕ = pos_part x in
    let n : ℕ = neg_part x in
    let q : ℕ = pos_part y in
    let r : ℕ = neg_part y in
    let ex : p + b ≡ n + a = sub_ℕ_parts a b in
    let ey : q + d ≡ r + c = sub_ℕ_parts c d in
    sub_ℕ_ext (p * q + n * r) (p * r + n * q) (a * c + b * d) (a * d + b * c)
      (product_parts p n q r a b c d ex ey)
