-- ===== src/BigInt/Shift/Floor.antt =====
-- `js_bigint_shr` divides by a power of two and rounds down.
use native.Mathlib.Nat.{one-le-pow, mul-le-mul_left, pow-le-pow_right, mod-lt}
use ggjs.Common.{
  ℕ, zero, suc, ◌+◌, ◌-◌, ◌*◌, ◌/◌, ◌%◌, ◌^◌, ◌≤◌, ◌<◌, ◌≡◌, refl, ap, sym, ◌∙◌, true, List, [],
  ◌∷◌, length, take, drop, ◌==◌, leb, arith, Bool-cases, ==_iff, inl, inr,
}
use ggjs.BigInt.Limb.{base, limb_bits, value}
use ggjs.BigInt.Mp.{mp_shr}
use ggjs.BigInt.Mp.Shift.{pow-add, pow_mul}
use ggjs.BigInt.Repr.{sign, integer, normalize}
use ggjs.BigInt.Repr.Normal.{normalize-integer}
use ggjs.BigInt.Repr.Span.{span, IsSignOf, sign-IsSignOf}
use ggjs.BigInt.Arith.{Memory, big, max_size, negated}
use ggjs.BigInt.Arith.Extend.{IsBig}
use ggjs.BigInt.Arith.Add.{with_new-granted}
use ggjs.BigInt.Convert.New.{js_bigint_new_si-granted}
use ggjs.BigInt.Shift.{js_bigint_shr}
use ggjs.BigInt.Shift.Right.{IsFloor, floor_lem, within, kept_limbs}

-- All limbs are dropped.
gone_lem :
    (s v x m : ℕ)
    → IsSignOf s v x
    → x ≤ m
    → (rem : ℕ) × (rem < m)
      × (negated s / 2 ^ 63 ≡ s)
      × (v + s * base * m ≡ negated s * m + rem + s * x)
gone_lem zero v x m i l = (v, omega (arith, i.below), refl, omega arith)
gone_lem (suc zero) v x m i l =
    (v + m - x, omega (arith, i.below), refl, omega (arith, i.over refl, i.below))
gone_lem (suc (suc s)) v x m i l = absurd (omega (arith, i.bit))

gone :
    (a : List ℕ) (m : ℕ)
    → IsBig a
    → span a ≤ m
    → IsFloor (integer a) m (integer (negated (sign a) ∷ []))
unfolding value sign
gone a m ha l =
    let s : ℕ = sign a in
    let (rem, less, same, e) = gone_lem s (value a) (span a) m (sign-IsSignOf a ha.0 ha.1) l in
    let scaled = ap (λ n. n * base * m) same in
    floor_lem a (negated s ∷ []) m rem less (omega (arith, e, scaled))

-- Some limbs are kept.
part :
    (a high t : List ℕ) (d p c low : ℕ)
    → sign high ≡ sign a
    → span a ≡ d * span high
    → value a ≡ low + d * value high
    → low < d
    → c < p
    → sign t ≡ sign high
    → span t ≡ span high
    → value high + sign high * span high * p ≡ value t * p + c + sign high * span high
    → IsFloor (integer a) (d * p) (integer t)
part a high t d p c low same_sign spans values less_low less same_sign' same_span e =
    let room = mul-le-mul_left d less in
    let scaled = ap (λ n. d * n) e in
    let left : value a + sign t * span t * (d * p)
        ≡ low + d * value high + sign high * span high * (d * p) =
      rw (values, same_sign', same_span) refl in
    let right : sign a * span a ≡ sign high * (d * span high) = rw (spans, same_sign) refl in
    floor_lem a t (d * p) (low + d * c) (omega (arith, room)) (omega (arith, left, right, scaled))

-- If the memory is granted and the operand is within JS_BIGINT_MAX_SIZE, `js_bigint_shr` returns the
-- integer of a `JSBigInt` divided by 2^shift1 and rounded down, as a `JSBigInt`.
pub js_bigint_shr-IsFloor :
    (mem : Memory) (a : List ℕ) (shift1 : ℕ)
    → IsBig a
    → length a ≤ max_size
    → mem.malloc 1 ≡ true
    → mem.malloc (length a - shift1 / limb_bits) ≡ true
    → (t : List ℕ) × (js_bigint_shr mem a shift1 ≡ big t)
      × IsFloor (integer a) (2 ^ shift1) (integer t)
      × IsBig t
unfolding js_bigint_shr
js_bigint_shr-IsFloor mem a shift1 ha small one granted =
    let d : ℕ = shift1 / limb_bits in
    let shift : ℕ = shift1 % limb_bits in
    let whole : shift1 ≡ limb_bits * d + shift = omega arith in
    let power : 2 ^ shift1 ≡ base ^ d * 2 ^ shift =
      ap (λ n. 2 ^ n) whole
      ∙ pow-add (limb_bits * d) shift
      ∙ ap (λ n. n * 2 ^ shift) (sym (pow_mul limb_bits d)) in
    let high : List ℕ = drop d a in
    let new = with_new-granted mem (length a - d) in
    elim (Bool-cases (leb (length a) d)) [
      | inl e ↦
          let positive : 0 < base = omega arith in
          let fewer : length a ≤ d = ground arith in
          let limbs : span a ≤ base ^ d = pow-le-pow_right positive fewer in
          let some : 1 ≤ 2 ^ shift = one-le-pow shift 2 (omega arith) in
          let bits = mul-le-mul_left (base ^ d) some in
          let short : span a ≤ 2 ^ shift1 = omega (arith, limbs, bits, power) in
          (
            negated (sign a) ∷ [],
            rw (e, js_bigint_new_si-granted mem (negated (sign a)) one) refl,
            gone a (2 ^ shift1) ha short,
            ((omega arith, tt), omega arith),
          )
      | inr e ↦
          let kept = kept_limbs a d ha (ground arith) in
          elim (Bool-cases (shift == 0)) [
            | inl z ↦
                let none : shift ≡ 0 = (==_iff shift 0).0 z in
                (
                  high,
                  rw (e, z, new (big high) (omega arith) granted) refl,
                  rw power (
                      part a high high (base ^ d) (2 ^ shift) 0 (value (take d a)) kept.1 kept.2
                        kept.3 kept.4 (one-le-pow shift 2 (omega arith)) refl refl
                        (rw none (omega arith))),
                  kept.0,
                )
            | inr z ↦
                let r = mp_shr high shift (negated (sign high)) in
                let w = within high shift kept.0 (ground arith) (mod-lt shift1 (omega arith)) in
                let n = normalize-integer r.limbs w.0.0 w.0.1 in
                let same : big (normalize (mp_shr high shift (negated (sign a))).limbs)
                    ≡ big (normalize r.limbs) =
                  ap (λ s. big (normalize (mp_shr high shift (negated s)).limbs)) (sym kept.1) in
                (
                  normalize r.limbs,
                  rw
                      (
                        e,
                        z,
                        new (big (normalize (mp_shr high shift (negated (sign a))).limbs))
                            (omega arith) granted,
                      )
                      same,
                  rw (n.0, power)
                      (part a high r.limbs (base ^ d) (2 ^ shift) r.carry (value (take d a)) kept.1
                        kept.2 kept.3 kept.4 w.3 w.1 w.2 w.4),
                  (n.1, n.2),
                )
          ]
    ]
