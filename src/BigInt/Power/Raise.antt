-- ===== src/BigInt/Power/Raise.antt =====
-- `js_bigint_pow` raises an integer to a power.
use native.Mathlib.Nat.{mul-le-mul_left}
use ggjs.Common.{
  ℕ, zero, suc, ◌+◌, ◌-◌, ◌*◌, ◌/◌, ◌%◌, ◌^◌, ◌≤◌, ◌<◌, ◌≡◌, refl, ap, sym, ◌∙◌, true, false, List,
  [], ◌∷◌, length, leb, ◌==◌, if◌then◌else◌, arith, Bool-cases, inl, inr, bit_and, ==_iff,
}
use ggjs.Common.Int.{pos, sub_ℕ_ext, ◌*ℤ◌}
use ggjs.BigInt.Limb.{base, limb, limb_bits}
use ggjs.BigInt.Repr.{sign, integer, ones}
use ggjs.BigInt.Arith.{Memory, big, max_size}
use ggjs.BigInt.Arith.Extend.{IsBig}
use ggjs.BigInt.Power.Integers.{◌^ℤ◌}
use ggjs.BigInt.Power.Loop.{IsGranting}
use ggjs.BigInt.Power.{pow_limb, js_bigint_pow}
use ggjs.BigInt.Power.Loop.{pow_loop-IsPower}
use ggjs.BigInt.Power.Two.{signed_two, signed_two-power}
use ggjs.BigInt.Convert.New.{js_bigint_new_si-granted}
use ggjs.Common.Bits.{bit_and-low}
use ggjs.Dtoa.{clz}
use ggjs.BigInt.Power.Limb.{two_power, pow_of_two-power}
use ggjs.BigInt.Power.Two.{one_limb, negative_limb}

zero_power : (e : ℕ) → 0 < e → pos 0 ^ℤ e ≡ pos 0
unfolding ◌^ℤ◌ ◌*ℤ◌
zero_power zero h = absurd (omega arith)
zero_power (suc e) h = sub_ℕ_ext _ _ 0 0 (omega arith)

unit_limb : (o : ℕ) → o ≤ 1 → integer (limb (base + 1 - 2 * o) ∷ []) ≡ signed_two o 0
unfolding signed_two
unit_limb zero h = one_limb 1 (omega arith)
unit_limb (suc zero) h =
    negative_limb (base - 1) (omega arith) (omega arith)
    ∙ sub_ℕ_ext (base - 1) base 0 1 (omega arith)
unit_limb (suc (suc o)) h = absurd (omega arith)

small_power : (v e : ℕ) → v ≤ 1 → 0 < e → integer (v ∷ []) ^ℤ e ≡ integer (v ∷ [])
small_power zero e h k =
    ap (λ z. z ^ℤ e) (one_limb 0 (omega arith)) ∙ zero_power e k ∙ sym (one_limb 0 (omega arith))
small_power (suc zero) e h k =
    let z : e * 0 ≡ 0 = omega arith in
    let o : 0 * e % 2 ≡ 0 = omega arith in
    let one : integer (1 ∷ []) ≡ signed_two 0 0 = unit_limb 0 (omega arith) in
    ap (λ x. x ^ℤ e) one ∙ signed_two-power 0 0 e (omega arith) ∙ rw (z, o) (sym one)
small_power (suc (suc v)) e h k = absurd (omega arith)

-- The integer of a limb, as a power of two or its negation.
signed_limb :
    (v n neg w : ℕ)
    → v < base
    → neg ≡ v / 2 ^ 63
    → w ≡ (if neg == 0 then v else limb (base - v))
    → w ≡ 2 ^ n
    → integer (v ∷ []) ≡ signed_two neg n
unfolding signed_two
signed_limb v n zero w h e f g =
    let same : v ≡ 2 ^ n = omega arith in one_limb v (omega arith) ∙ ap pos same
signed_limb v n (suc zero) w h e f g =
    let same : base - v ≡ 2 ^ n = omega arith in
    negative_limb v (omega arith) h ∙ sub_ℕ_ext v base 0 (2 ^ n) (omega arith)
signed_limb v n (suc (suc neg)) w h e f g = absurd (omega arith)

module _ (mem : Memory) (granting : IsGranting mem) (e : ℕ) (some : 0 < e)
    (fits : e ≤ max_size) where
  pow_limb-power :
      (v : ℕ)
      → v < base
      → (t : List ℕ) × (pow_limb mem (v ∷ []) (e ∷ []) ≡ big t)
        × (integer t ≡ integer (v ∷ []) ^ℤ e)
        × IsBig t
  unfolding pow_limb IsGranting
  pow_limb-power v word =
      let neg : ℕ = v / 2 ^ 63 in
      let w : ℕ = if neg == 0 then v else limb (base - v) in
      let granted : mem.malloc 1 ≡ true = granting 1 (omega arith) in
      elim (Bool-cases (leb v 1)) [
        | inl l ↦ (
          v ∷ [],
          rw (l, js_bigint_new_si-granted mem v granted) refl,
          sym (small_power v e (ground arith) some),
          ((word, tt), omega arith),
        )
        | inr l ↦ elim (Bool-cases (v == ones)) [
          | inl m ↦
              let last : v ≡ ones = (==_iff v ones).0 m in
              let o : ℕ = bit_and e 1 in
              let odd : o ≡ 1 * e % 2 = bit_and-low 1 e ∙ omega arith in
              let minus_one = signed_limb v 0 1 1 word (omega arith) (omega arith) refl in
              let none : e * 0 ≡ 0 = omega arith in
              (
                limb (base + 1 - 2 * o) ∷ [],
                rw (l, m) (js_bigint_new_si-granted mem (limb (base + 1 - 2 * o)) granted),
                unit_limb o (omega (arith, odd))
                    ∙ ap (λ k. signed_two k 0) odd
                    ∙ ap (λ k. signed_two (1 * e % 2) k) (sym none)
                    ∙ sym (signed_two-power 1 0 e (omega arith))
                    ∙ ap (λ z. z ^ℤ e) (sym minus_one),
                ((omega arith, tt), omega arith),
              )
          | inr m ↦ elim (Bool-cases (bit_and w (w - 1) == 0)) [
            | inl p ↦
                let positive : 0 < w = ground arith in
                let (two, small) = two_power w positive (ground arith) p in
                let (t, ran, power, i) =
                  pow_of_two-power mem granting e (limb_bits - 1 - clz 64 w) neg (omega arith) small
                    fits in
                (
                  t,
                  rw (l, m, p) ran,
                  power
                      ∙ ap (λ z. z ^ℤ e)
                          (sym (signed_limb v (limb_bits - 1 - clz 64 w) neg w word refl refl two)),
                  i,
                )
            | inr p ↦
                let (t, ran, q) =
                  pow_loop-IsPower mem granting (v ∷ []) ((word, tt), omega arith) e some
                    (omega arith) (omega arith) in
                (t, rw (l, m, p) ran, q.is_power, q.is_big)
          ]
        ]
      ]

granted_one : (mem : Memory) → IsGranting mem → mem.malloc 1 ≡ true
unfolding IsGranting
granted_one mem granting = granting 1 (omega arith)

power_zero : (a : List ℕ) → integer (1 ∷ []) ≡ integer a ^ℤ 0
unfolding ◌^ℤ◌
power_zero a = one_limb 1 (omega arith)

-- If all memory within JS_BIGINT_MAX_SIZE is granted and so many limbs are enough for the factors,
-- `js_bigint_pow` returns the power of a `JSBigInt` by an exponent of one limb, as a `JSBigInt`.
pub js_bigint_pow-integer :
    (mem : Memory) (a : List ℕ) (e : ℕ)
    → IsGranting mem
    → IsBig a
    → e * length a ≤ max_size
    → (t : List ℕ) × (js_bigint_pow mem a (e ∷ []) ≡ big t) × (integer t ≡ integer a ^ℤ e) × IsBig t
unfolding js_bigint_pow sign
js_bigint_pow-integer mem [] e granting ha fits = absurd (omega (arith, ha.1))
js_bigint_pow-integer mem (x ∷ []) e granting ha fits =
    let plain : (e / 2 ^ 63 == 0) ≡ true = ground arith in
    let small : e ≤ max_size = omega arith in
    elim (Bool-cases (e == 0)) [
      | inl z ↦
          let none : e ≡ 0 = (==_iff e 0).0 z in
          (
            1 ∷ [],
            rw (plain, z) (js_bigint_new_si-granted mem 1 (granted_one mem granting)),
            rw none (power_zero (x ∷ [])),
            ((omega arith, tt), omega arith),
          )
      | inr z ↦
          let (t, ran, power, i) = pow_limb-power mem granting e (ground arith) small x ha.0.0 in
          (t, rw (plain, z) ran, power, i)
    ]
js_bigint_pow-integer mem (x ∷ y ∷ ys) e granting ha fits =
    let a : List ℕ = x ∷ y ∷ ys in
    let least : 1 ≤ length a = omega arith in
    let more = mul-le-mul_left e least in
    let plain : (e / 2 ^ 63 == 0) ≡ true = ground (arith, more) in
    let long : (length a == 1) ≡ false = ground arith in
    elim (Bool-cases (e == 0)) [
      | inl z ↦
          let none : e ≡ 0 = (==_iff e 0).0 z in
          (
            1 ∷ [],
            rw (plain, z) (js_bigint_new_si-granted mem 1 (granted_one mem granting)),
            rw none (power_zero a),
            ((omega arith, tt), omega arith),
          )
      | inr z ↦
          let (t, ran, q) =
            pow_loop-IsPower mem granting a ha e (ground arith) (omega (arith, more)) fits in
          (t, rw (plain, z, long) ran, q.is_power, q.is_big)
    ]
