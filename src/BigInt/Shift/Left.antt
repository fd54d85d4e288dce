-- ===== src/BigInt/Shift/Left.antt =====
-- `js_bigint_shl` multiplies by a power of two.
use native.Mathlib.Nat.{one-le-pow, pow-le-pow_right}
use ggjs.Common.{
  ℕ, zero, suc, ◌+◌, ◌-◌, ◌*◌, ◌/◌, ◌%◌, ◌^◌, ◌≤◌, ◌<◌, ◌≡◌, refl, ap, sym, ◌∙◌, true, List, [],
  ◌∷◌, length, get_or, ◌==◌, ◌&&◌, bit_or, arith, Bool-cases, inl, inr,
}
use ggjs.Common.Bits.{bit_or-below}
use ggjs.Common.Int.{pos, sub_ℕ_ext, ◌*ℤ◌}
use ggjs.BigInt.Limb.{base, limb, limb_bits, IsLimbs, value, snoc, length-snoc}
use ggjs.BigInt.Mp.{mp_shl}
use ggjs.BigInt.Mp.Shift.{mp_shl-value, pow_split, pow-add}
use ggjs.BigInt.Repr.{sign, above, integer, ones}
use ggjs.BigInt.Repr.Extend.{value-snoc, above-snoc, above_add, sign-snoc}
use ggjs.BigInt.Arith.{Memory, big, max_size, extend}
use ggjs.BigInt.Arith.Extend.{IsBig, extend-integer}
use ggjs.BigInt.Arith.Add.{with_new-granted, sign-le_one}
use ggjs.BigInt.Compare.Order.{above-same}
use ggjs.BigInt.Convert.New.{js_bigint_new_si-granted}
use ggjs.BigInt.Shift.{with_sign, js_bigint_shl}
use ggjs.BigInt.Shift.Pad.{
  sub_ℕ-mul, padded, length-padded, padded-IsLimbs, snoc-padded, integer-padded,
}

-- The sign's bits above what was shifted out.
mask_lem :
    (s l : ℕ) → s < limb_bits → l < 2 ^ s → bit_or l (limb (ones * 2 ^ s)) ≡ l + (base - 2 ^ s)
mask_lem s l h k =
    let p : ℕ = 2 ^ s in
    let q : ℕ = 2 ^ (limb_bits - s) in
    let whole : p * q ≡ base = pow_split s (omega arith) in
    let p_pos : 1 ≤ p = one-le-pow s 2 (omega arith) in
    let q_pos : 1 ≤ q = one-le-pow (limb_bits - s) 2 (omega arith) in
    let less : q - 1 + 1 ≡ q = omega arith in
    let rest : (q - 1) * p + p ≡ base = omega (arith, ap (λ t. t * p) less, whole) in
    let word : limb (ones * p) ≡ (q - 1) * p = omega (arith, rest, p_pos) in
    ap (bit_or l) word ∙ bit_or-below s (q - 1) l k ∙ omega (arith, rest)

above-mul : (s m : ℕ) (t : List ℕ) → above (s * m) t ≡ above s t * m
unfolding above
above-mul s m [] = refl
above-mul s m (x ∷ t) = omega (arith, above-mul s m t)

top_limb :
    (g s l : ℕ)
    → g ≤ 1
    → s < limb_bits
    → l < 2 ^ s
    → (with_sign g s l < base)
      × (with_sign g s l + g * 2 ^ s ≡ l + base * (with_sign g s l / 2 ^ 63))
top_limb zero s l hg hs hl =
    let small : 2 ^ s ≤ 2 ^ 63 =
      pow-le-pow_right {n = 2} (omega arith) {i = s} {j = 63} (omega arith) in
    (omega (arith, small), omega (arith, small))
top_limb (suc zero) s l hg hs hl =
    let small : 2 ^ s ≤ 2 ^ 63 =
      pow-le-pow_right {n = 2} (omega arith) {i = s} {j = 63} (omega arith) in
    let mask = mask_lem s l hs hl in (omega (arith, small, mask), omega (arith, small, mask))
top_limb (suc (suc g)) s l hg hs hl = absurd (omega arith)

-- The shift within a limb.
shifted_lem :
    (a : List ℕ) (s : ℕ)
    → IsLimbs a
    → 0 < s
    → s < limb_bits
    → integer (snoc (mp_shl a s).limbs (with_sign (sign a) s (mp_shl a s).carry))
      ≡ integer a *ℤ pos (2 ^ s)
unfolding integer
shifted_lem a s ha some hs =
    let v = mp_shl-value a s some hs ha in
    let r = mp_shl a s in
    let g = sign a in
    let op : ℕ = with_sign g s r.carry in
    let top = top_limb g s r.carry (sign-le_one a ha) hs v.3 in
    let heights : above (op + g * 2 ^ s) r.limbs ≡ above (r.carry + base * (op / 2 ^ 63)) r.limbs =
      ap (λ n. above n r.limbs) top.1 in
    let scaled : above (g * 2 ^ s) r.limbs ≡ above g a * 2 ^ s =
      above-mul g (2 ^ s) r.limbs ∙ ap (λ n. n * 2 ^ s) (above-same g r.limbs a v.2) in
    rw (sign-snoc r.limbs op) (
      sub_ℕ_ext (value (snoc r.limbs op)) (above (op / 2 ^ 63) (snoc r.limbs op)) (value a * 2 ^ s)
        (above g a * 2 ^ s)
        (omega (
          arith,
          v.0,
          heights,
          scaled,
          value-snoc r.limbs op,
          value-snoc r.limbs r.carry,
          above-snoc (op / 2 ^ 63) r.limbs op,
          above_add op (g * 2 ^ s) r.limbs,
          above_add r.carry (base * (op / 2 ^ 63)) r.limbs,
        ))
      ∙ sym (sub_ℕ-mul (value a) (above g a) (2 ^ s)))

-- Two factors in a row.
mul-mul : (t : List ℕ) (m n : ℕ) → integer t *ℤ pos m *ℤ pos n ≡ integer t *ℤ pos (m * n)
unfolding integer
mul-mul t m n =
    let v : ℕ = value t in
    let p : ℕ = above (sign t) t in
    ap (λ z. z *ℤ pos n) (sub_ℕ-mul v p m)
    ∙ sub_ℕ-mul (v * m) (p * m) n
    ∙ sub_ℕ_ext (v * m * n) (p * m * n) (v * (m * n)) (p * (m * n)) (omega arith)
    ∙ sym (sub_ℕ-mul v p (m * n))

zero_scaled : (m : ℕ) → integer (0 ∷ []) ≡ integer (0 ∷ []) *ℤ pos m
unfolding integer value above sign
zero_scaled m = sub_ℕ_ext 0 0 (0 * m) (0 * m) (omega arith) ∙ sym (sub_ℕ-mul 0 0 m)

zero_lem :
    (a : List ℕ) (m : ℕ)
    → (length a == 1 && get_or a 0 0 == 0) ≡ true
    → integer (0 ∷ []) ≡ integer a *ℤ pos m
zero_lem [] m e = absurd (cc)
zero_lem (x ∷ []) m e =
    let none : x ≡ 0 = ground arith in
    zero_scaled m ∙ ap (λ n. integer (n ∷ []) *ℤ pos m) (sym none)
zero_lem (x ∷ y ∷ a) m e = absurd (ground arith)

whole_limbs : (n : ℕ) → (n % limb_bits == 0) ≡ true → limb_bits * (n / limb_bits) ≡ n
whole_limbs n h = ground arith

powers : (n : ℕ) → 2 ^ (n % limb_bits) * 2 ^ (limb_bits * (n / limb_bits)) ≡ 2 ^ n
powers n =
    sym (pow-add (n % limb_bits) (limb_bits * (n / limb_bits))) ∙ ap (λ e. 2 ^ e) (omega arith)

module _ (mem : Memory) (a : List ℕ) (shift1 : ℕ) where
  -- If the memory is granted and the operand with the limbs of the shift is within
  -- JS_BIGINT_MAX_SIZE, `js_bigint_shl` returns the integer times the power of two, as a `JSBigInt`.
  pub js_bigint_shl-integer :
      IsBig a
      → length a + shift1 / limb_bits ≤ max_size
      → ((n : ℕ) → n ≤ length a + shift1 / limb_bits → mem.malloc n ≡ true)
      → mem.realloc (length a + shift1 / limb_bits + 1) ≡ true
      → (t : List ℕ) × (js_bigint_shl mem a shift1 ≡ big t)
        × (integer t ≡ integer a *ℤ pos (2 ^ shift1))
        × IsBig t
  unfolding js_bigint_shl
  js_bigint_shl-integer h small granted more =
      let d : ℕ = shift1 / limb_bits in
      let s : ℕ = shift1 % limb_bits in
      let u : List ℕ = padded d (mp_shl a s).limbs in
      let op : ℕ = with_sign (sign a) s (mp_shl a s).carry in
      elim (Bool-cases (length a == 1 && get_or a 0 0 == 0)) [
        | inl z ↦ rw z (
          0 ∷ [],
          js_bigint_new_si-granted mem 0 (granted 1 (omega (arith, h.1))),
          zero_lem a (2 ^ shift1) z,
          ((omega arith, tt), omega arith),
        )
        | inr z ↦ elim (Bool-cases (s == 0)) [
          | inl y ↦
              rw (z, y)
                (
                  padded d a,
                  with_new-granted mem (length a + d) (big (padded d a)) small
                      (granted (length a + d) (omega arith)),
                  integer-padded d a h.1
                      ∙ ap (λ n. integer a *ℤ pos (2 ^ n)) (whole_limbs shift1 y),
                  (padded-IsLimbs d a h.0, omega (arith, length-padded d a, h.1)),
                )
          | inr y ↦
              let some : 0 < s = ground arith in
              let v = mp_shl-value a s some (omega arith) h.0 in
              let top =
                top_limb (sign a) s (mp_shl a s).carry (sign-le_one a h.0) (omega arith) v.3 in
              let len : length u ≡ length a + d =
                omega (arith, length-padded d (mp_shl a s).limbs, v.2) in
              let room : mem.realloc (length u + 1) ≡ true =
                ap (λ n. mem.realloc (n + 1)) len ∙ more in
              let ext =
                extend-integer mem u op
                  (padded-IsLimbs d (mp_shl a s).limbs v.1, omega (arith, len, h.1)) top.0 room in
              rw (z, y)
                (
                  ext.0,
                  with_new-granted mem (length a + d) (extend mem u op) small
                        (granted (length a + d) (omega arith))
                      ∙ ext.1,
                  ext.2
                      ∙ ap integer (snoc-padded d (mp_shl a s).limbs op)
                      ∙ integer-padded d (snoc (mp_shl a s).limbs op)
                          (omega (arith, length-snoc (mp_shl a s).limbs op))
                      ∙ ap (λ i. i *ℤ pos (2 ^ (limb_bits * d)))
                          (shifted_lem a s h.0 some (omega arith))
                      ∙ mul-mul a (2 ^ s) (2 ^ (limb_bits * d))
                      ∙ ap (λ n. integer a *ℤ pos n) (powers shift1),
                  ext.3,
                )
        ]
      ]
