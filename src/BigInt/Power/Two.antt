-- ===== src/BigInt/Power/Two.antt =====
-- The powers of 2^n and -2^n in `js_bigint_pow`.
use native.Mathlib.Nat.{one-le-pow, pow-le-pow_right, mod-eq_of_lt}
use ggjs.Common.{
  ℕ, zero, suc, ◌+◌, ◌-◌, ◌*◌, ◌/◌, ◌%◌, ◌^◌, ◌≤◌, ◌<◌, ◌≡◌, refl, ap, sym, ◌∙◌, [], ◌∷◌, ◌++◌, set,
  replicate, arith, inl, inr, lt_or_le,
}
use ggjs.Common.Bits.{agree_below, checks}
use ggjs.Common.Int.{ℤ, pos, sub_ℕ, sub_ℕ_ext, ◌*ℤ◌}
use ggjs.BigInt.Limb.{base, limb, limb_bits, value}
use ggjs.BigInt.Mp.Shift.{pow-add}
use ggjs.BigInt.Repr.{sign, above, integer, ones}
use ggjs.BigInt.Arith.Extend.{IsBig}
use ggjs.BigInt.Multiply.Wrap.{sub_ℕ-mul-sub_ℕ}
use ggjs.BigInt.Power.Integers.{◌^ℤ◌}

-- 2^n or its negation.
unfoldable pub signed_two : (neg n : ℕ) → ℤ
signed_two zero n = pos (2 ^ n)
signed_two (suc neg) n = sub_ℕ 0 (2 ^ n)

pub set-replicate :
    (q m x : ℕ) → set (replicate (q + suc m) 0) q x ≡ replicate q 0 ++ x ∷ replicate m 0
set-replicate zero m x = let e : zero + suc m ≡ suc m = omega arith in rw e refl
set-replicate (suc q) m x =
    let e : suc q + suc m ≡ suc (q + suc m) = omega arith in
    rw e (ap (λ t. 0 ∷ t) (set-replicate q m x))

pub one_limb : (x : ℕ) → x < 2 ^ 63 → integer (x ∷ []) ≡ pos x
unfolding integer value above sign
one_limb x h = ground arith

two_limbs : (x : ℕ) → integer (x ∷ 0 ∷ []) ≡ pos x
unfolding integer value above sign
two_limbs x = ground arith

pub negative_limb : (x : ℕ) → 2 ^ 63 ≤ x → x < base → integer (x ∷ []) ≡ sub_ℕ x base
unfolding integer value above sign
negative_limb x h l =
    let top : x / 2 ^ 63 ≡ 1 = omega arith in
    sub_ℕ_ext (x + base * 0) (base * (x / 2 ^ 63)) x base (omega (arith, top))

negative_power : (s : ℕ) → s < limb_bits → limb (ones * 2 ^ s) ≡ base - 2 ^ s
unfolding checks
negative_power s l = agree_below 64 (λ k. limb (ones * 2 ^ k)) (λ k. base - 2 ^ k) s refl l

-- The limbs from the one that is not zero on.
pub top_limbs :
    (odd s : ℕ)
    → odd ≤ 1
    → s < limb_bits
    → (m : ℕ) × ((s + limb_bits + 1 - odd) / limb_bits ≡ suc m)
      × (integer (limb (limb (base + 1 - 2 * odd) * 2 ^ s) ∷ replicate m 0) ≡ signed_two odd s)
      × IsBig (limb (limb (base + 1 - 2 * odd) * 2 ^ s) ∷ replicate m 0)
unfolding signed_two
top_limbs zero s h l =
    let two : 0 < 2 = omega arith in
    let last : s ≤ 63 = omega arith in
    let p : 2 ^ s ≤ 2 ^ 63 = pow-le-pow_right two last in
    let word : limb (1 * 2 ^ s) ≡ 2 ^ s = mod-eq_of_lt (omega (arith, p)) ∙ omega arith in
    elim (lt_or_le s 63) [
      | inl q ↦
          let last' : s ≤ 62 = omega arith in
          let p' : 2 ^ s ≤ 2 ^ 62 = pow-le-pow_right two last' in
          (
            0,
            omega arith,
            rw word (one_limb (2 ^ s) (omega (arith, p'))),
            ((omega arith, tt), omega arith),
          )
      | inr q ↦ (
        1,
        omega arith,
        rw word (two_limbs (2 ^ s)),
        ((omega arith, (omega arith, tt)), omega arith),
      )
    ]
top_limbs (suc zero) s h l =
    let two : 0 < 2 = omega arith in
    let last : s ≤ 63 = omega arith in
    let p : 2 ^ s ≤ 2 ^ 63 = pow-le-pow_right two last in
    let some : 1 ≤ 2 ^ s = one-le-pow s 2 two in
    let word = negative_power s l in
    let big_limb = negative_limb (base - 2 ^ s) (omega (arith, p)) (omega (arith, some)) in
    (
      0,
      omega arith,
      rw word (big_limb ∙ sub_ℕ_ext (base - 2 ^ s) base 0 (2 ^ s) (omega (arith, p))),
      ((omega arith, tt), omega arith),
    )
top_limbs (suc (suc n)) s h l = absurd (omega arith)

signed_two-parts :
    (neg n : ℕ) → neg ≤ 1 → signed_two neg n ≡ sub_ℕ ((1 - neg) * 2 ^ n) (neg * 2 ^ n)
unfolding signed_two
signed_two-parts zero n h = ground arith
signed_two-parts (suc zero) n h = sub_ℕ_ext 0 (2 ^ n) ((1 - 1) * 2 ^ n) (1 * 2 ^ n) (omega arith)
signed_two-parts (suc (suc neg)) n h = absurd (omega arith)

signs_lem :
    (a b c p q r : ℕ)
    → a ≤ 1
    → b ≤ 1
    → c ≡ (a + b) % 2
    → r ≡ p * q
    → (1 - a) * p * ((1 - b) * q) + a * p * (b * q) + c * r
      ≡ (1 - c) * r + ((1 - a) * p * (b * q) + a * p * ((1 - b) * q))
signs_lem zero zero zero p q r ha hb e k = omega (arith, k)
signs_lem zero (suc zero) (suc zero) p q r ha hb e k = omega (arith, k)
signs_lem (suc zero) zero (suc zero) p q r ha hb e k = omega (arith, k)
signs_lem (suc zero) (suc zero) zero p q r ha hb e k = omega (arith, k)
signs_lem zero zero (suc c) p q r ha hb e k = absurd (omega arith)
signs_lem zero (suc zero) zero p q r ha hb e k = absurd (omega arith)
signs_lem zero (suc zero) (suc (suc c)) p q r ha hb e k = absurd (omega arith)
signs_lem (suc zero) zero zero p q r ha hb e k = absurd (omega arith)
signs_lem (suc zero) zero (suc (suc c)) p q r ha hb e k = absurd (omega arith)
signs_lem (suc zero) (suc zero) (suc c) p q r ha hb e k = absurd (omega arith)
signs_lem (suc (suc a)) b c p q r ha hb e k = absurd (omega arith)
signs_lem a (suc (suc b)) c p q r ha hb e k = absurd (omega arith)

parity : (neg e : ℕ) → neg ≤ 1 → neg * suc e % 2 ≡ (neg * e % 2 + neg) % 2
parity zero e h = omega arith
parity (suc zero) e h = omega arith
parity (suc (suc n)) e h = absurd (omega arith)

-- The product of two such numbers.
pub signed_two-mul :
    (a b c m n : ℕ)
    → a ≤ 1
    → b ≤ 1
    → c ≡ (a + b) % 2
    → signed_two a m *ℤ signed_two b n ≡ signed_two c (m + n)
signed_two-mul a b c m n ha hb e =
    let p : 2 ^ (m + n) ≡ 2 ^ m * 2 ^ n = pow-add m n in
    ap (λ z. z *ℤ signed_two b n) (signed_two-parts a m ha)
    ∙ ap (λ z. sub_ℕ ((1 - a) * 2 ^ m) (a * 2 ^ m) *ℤ z) (signed_two-parts b n hb)
    ∙ sub_ℕ-mul-sub_ℕ ((1 - a) * 2 ^ m) (a * 2 ^ m) ((1 - b) * 2 ^ n) (b * 2 ^ n)
    ∙ sub_ℕ_ext _ _ _ _ (signs_lem a b c (2 ^ m) (2 ^ n) (2 ^ (m + n)) ha hb e p)
    ∙ sym (signed_two-parts c (m + n) (omega arith))

-- The power of a power of two, or of its negation.
pub signed_two-power :
    (neg n e : ℕ) → neg ≤ 1 → signed_two neg n ^ℤ e ≡ signed_two (neg * e % 2) (e * n)
unfolding ◌^ℤ◌ signed_two
signed_two-power neg n zero h =
    let z : neg * 0 % 2 ≡ 0 = omega arith in let k : 0 * n ≡ 0 = omega arith in rw (z, k) refl
signed_two-power neg n (suc e) h =
    let m : suc e * n ≡ e * n + n = omega arith in
    ap (λ z. z *ℤ signed_two neg n) (signed_two-power neg n e h)
    ∙ signed_two-mul (neg * e % 2) neg (neg * suc e % 2) (e * n) n (omega arith) h (parity neg e h)
    ∙ ap (λ k. signed_two (neg * suc e % 2) k) (sym m)
