-- ===== src/BigInt/Compare/Order.antt =====
-- `js_bigint_cmp` compares the integers.
use ggjs.Common.{
  ℕ, ◌+◌, ◌*◌, ◌<◌, ◌≡◌, refl, ap, sym, ◌∙◌, false, List, [], ◌∷◌, length, ltb, ◌==◌, if◌then◌else◌,
  arith, inl, inr, Bool-cases, sym, ◌∙◌, Bool-cases, inl, inr,
}
use ggjs.Common.Int.{ℤ, pos, negsuc, sub_ℕ, ltb_ℤ}
use ggjs.BigInt.Limb.{base, IsLimbs, value}
use ggjs.BigInt.Repr.{sign, above, integer}
use ggjs.BigInt.Repr.Minimal.{above_none, value-lt, IsNormal, bound-le, beyond, within}
use ggjs.BigInt.Arith.Extend.{IsBig}
use ggjs.BigInt.Arith.Add.{sign-le_one}
use ggjs.BigInt.Compare.{is_zero, cmp_limbs, js_bigint_cmp}

-- -1, 0 or 1 as one integer is less than, equal to or greater than another.
abbrev pub order : ℤ → ℤ → ℤ
order a b = if ltb_ℤ a b then negsuc 0 else if ltb_ℤ b a then pos 1 else pos 0

order_ℕ : ℕ → ℕ → ℤ
order_ℕ v w = if ltb v w then negsuc 0 else if ltb w v then pos 1 else pos 0

order_step :
    (x y v w : ℕ) (high : ℤ)
    → x < base
    → y < base
    → high ≡ order_ℕ v w
    → (if is_zero high then if x == y then pos 0 else if ltb x y then negsuc 0 else pos 1 else high)
      ≡ order_ℕ (x + base * v) (y + base * w)
unfolding order_ℕ
order_step x y v w high hx hy e = rw e (ground arith)

cmp_limbs-order_ℕ :
    (a b : List ℕ)
    → IsLimbs a
    → IsLimbs b
    → length a ≡ length b
    → cmp_limbs a b ≡ order_ℕ (value a) (value b)
unfolding cmp_limbs value
cmp_limbs-order_ℕ [] [] ha hb e = unfold order_ℕ in refl
cmp_limbs-order_ℕ [] (y ∷ b) ha hb e = absurd (omega arith)
cmp_limbs-order_ℕ (x ∷ a) [] ha hb e = absurd (omega arith)
cmp_limbs-order_ℕ (x ∷ a) (y ∷ b) ha hb e =
    order_step x y (value a) (value b) (cmp_limbs a b) ha.0 hb.0
      (cmp_limbs-order_ℕ a b ha.1 hb.1 (omega arith))

pub above-same : (s : ℕ) (a b : List ℕ) → length a ≡ length b → above s a ≡ above s b
unfolding above
above-same s [] [] e = refl
above-same s [] (y ∷ b) e = absurd (omega arith)
above-same s (x ∷ a) [] e = absurd (omega arith)
above-same s (x ∷ a) (y ∷ b) e = ap (λ n. base * n) (above-same s a b (omega arith))

order-less : (v p w q : ℕ) → v + q < w + p → order (sub_ℕ v p) (sub_ℕ w q) ≡ negsuc 0
order-less v p w q h = ground arith

order-greater : (v p w q : ℕ) → w + p < v + q → order (sub_ℕ v p) (sub_ℕ w q) ≡ pos 1
order-greater v p w q h = ground arith

order-shifted : (v w p : ℕ) → order_ℕ v w ≡ order (sub_ℕ v p) (sub_ℕ w p)
unfolding order_ℕ
order-shifted v w p = ground arith

-- A normalised integer of more limbs lies outside what fewer limbs reach, on the side of its sign.
longer :
    (a b : List ℕ)
    → IsBig a
    → IsBig b
    → IsNormal b
    → length a < length b
    → (sign b ≡ 0 → value a + above (sign b) b < value b + above (sign a) a)
      × (sign b ≡ 1 → value b + above (sign a) a < value a + above (sign b) b)
longer a [] ha hb nb l = absurd (omega arith)
longer a (x ∷ u) ha hb nb l =
    let b : List ℕ = x ∷ u in
    let near = within a ha.0 ha.1 in
    let grown = bound-le (length a) (length u) (omega arith) in
    let far = beyond x u hb.0 (omega (arith, ha.1)) nb in
    let small = value-lt b hb.0 in
    (
      λ s.
          let height : above (sign b) b ≡ 0 = ap (λ z. above z b) s ∙ above_none b in
          elim far [
            | inl k ↦ omega (arith, near.0, grown, k)
            | inr k ↦ absurd (omega (arith, height, k))
          ],
      λ s.
          let height : above (sign b) b ≡ above 1 b = ap (λ z. above z b) s in
          elim far [
            | inl k ↦ absurd (omega (arith, height, small, k))
            | inr k ↦ omega (arith, near.1, grown, k)
          ],
    )

module _ (a b : List ℕ) (ha : IsBig a) (hb : IsBig b) where
  other_signs : (sign a == sign b) ≡ false → sub_ℕ 1 (2 * sign a) ≡ order (integer a) (integer b)
  unfolding integer
  other_signs e =
      let sa = sign-le_one a ha.0 in
      let sb = sign-le_one b hb.0 in
      let small_a = value-lt a ha.0 in
      let small_b = value-lt b hb.0 in
      elim (Bool-cases (sign a == 0)) [
        | inl z ↦
            let s : sign a ≡ 0 = ground arith in
            let t : sign b ≡ 1 = ground arith in
            let p : above (sign a) a ≡ 0 = ap (λ n. above n a) s ∙ above_none a in
            let q : above (sign b) b ≡ above 1 b = ap (λ n. above n b) t in
            ap (λ n. sub_ℕ 1 (2 * n)) s
            ∙ sym (
                order-greater (value a) (above (sign a) a) (value b) (above (sign b) b)
                  (omega (arith, p, q, small_b)))
        | inr z ↦
            let s : sign a ≡ 1 = ground arith in
            let t : sign b ≡ 0 = ground arith in
            let p : above (sign a) a ≡ above 1 a = ap (λ n. above n a) s in
            let q : above (sign b) b ≡ 0 = ap (λ n. above n b) t ∙ above_none b in
            ap (λ n. sub_ℕ 1 (2 * n)) s
            ∙ sym (
                order-less (value a) (above (sign a) a) (value b) (above (sign b) b)
                  (omega (arith, p, q, small_a)))
      ]

  fewer_limbs :
      IsNormal b
      → sign a ≡ sign b
      → length a < length b
      → sub_ℕ (2 * sign a) 1 ≡ order (integer a) (integer b)
  unfolding integer
  fewer_limbs nb same l =
      let sa = sign-le_one a ha.0 in
      let far = longer a b ha hb nb l in
      elim (Bool-cases (sign a == 0)) [
        | inl z ↦
            let s : sign a ≡ 0 = ground arith in
            ap (λ n. sub_ℕ (2 * n) 1) s
            ∙ sym (
                order-less (value a) (above (sign a) a) (value b) (above (sign b) b)
                  (far.0 (sym same ∙ s)))
        | inr z ↦
            let s : sign a ≡ 1 = ground arith in
            ap (λ n. sub_ℕ (2 * n) 1) s
            ∙ sym (
                order-greater (value a) (above (sign a) a) (value b) (above (sign b) b)
                  (far.1 (sym same ∙ s)))
      ]

  more_limbs :
      IsNormal a
      → sign a ≡ sign b
      → length b < length a
      → sub_ℕ 1 (2 * sign a) ≡ order (integer a) (integer b)
  unfolding integer
  more_limbs na same l =
      let sa = sign-le_one a ha.0 in
      let far = longer b a hb ha na l in
      elim (Bool-cases (sign a == 0)) [
        | inl z ↦
            let s : sign a ≡ 0 = ground arith in
            ap (λ n. sub_ℕ 1 (2 * n)) s
            ∙ sym
                (order-greater (value a) (above (sign a) a) (value b) (above (sign b) b) (far.0 s))
        | inr z ↦
            let s : sign a ≡ 1 = ground arith in
            ap (λ n. sub_ℕ 1 (2 * n)) s
            ∙ sym (order-less (value a) (above (sign a) a) (value b) (above (sign b) b) (far.1 s))
      ]

  same_limbs : sign a ≡ sign b → length a ≡ length b → cmp_limbs a b ≡ order (integer a) (integer b)
  unfolding integer
  same_limbs same l =
      let height : above (sign a) a ≡ above (sign b) b =
        above-same (sign a) a b l ∙ ap (λ n. above n b) same in
      cmp_limbs-order_ℕ a b ha.0 hb.0 l
      ∙ order-shifted (value a) (value b) (above (sign a) a)
      ∙ ap (λ h. order (sub_ℕ (value a) (above (sign a) a)) (sub_ℕ (value b) h)) height

  -- For normalised operands `js_bigint_cmp` returns -1, 0 or 1 as the integer of the first is less
  -- than, equal to or greater than the integer of the second.
  pub js_bigint_cmp-order :
      IsNormal a → IsNormal b → js_bigint_cmp a b ≡ order (integer a) (integer b)
  unfolding js_bigint_cmp
  js_bigint_cmp-order na nb = elim (Bool-cases (sign a == sign b)) [
    | inr e ↦ rw e (other_signs e)
    | inl e ↦
        let same : sign a ≡ sign b = ground arith in
        elim (Bool-cases (length a == length b)) [
          | inl l ↦ rw (e, l) (same_limbs same (ground arith))
          | inr l ↦ elim (Bool-cases (ltb (length a) (length b))) [
            | inl k ↦ rw (e, l, k) (fewer_limbs nb same (ground arith))
            | inr k ↦ rw (e, l, k) (more_limbs na same (ground arith))
          ]
        ]
  ]
