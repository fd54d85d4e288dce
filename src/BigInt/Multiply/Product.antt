-- ===== src/BigInt/Multiply/Product.antt =====
-- `js_bigint_mul` of quickjs.c multiplies integers.
use ggjs.Common.{
  ℕ, zero, suc, ◌+◌, ◌*◌, ◌^◌, ◌≤◌, ◌<◌, ◌≡◌, refl, ap, sym, ◌∙◌, true, List, [], ◌∷◌, ◌++◌, length,
  take, drop, ◌==◌, if◌then◌else◌, arith, take-append-drop, length-take_le, length-drop,
  length-append,
}
use ggjs.Common.Int.{sub_ℕ_ext, ◌*ℤ◌}
use ggjs.BigInt.Limb.{base, value, IsLimbs}
use ggjs.BigInt.Mp.{mp_sub, mp_mul_basecase}
use ggjs.BigInt.Mp.Sum.{mp_sub-value}
use ggjs.BigInt.Mp.Product.{mp_mul_basecase-value}
use ggjs.BigInt.Repr.{sign, integer, normalize}
use ggjs.BigInt.Repr.Extend.{value-snoc}
use ggjs.BigInt.Repr.Take.{take-IsLimbs}
use ggjs.BigInt.Repr.Normal.{normalize-integer}
use ggjs.BigInt.Arith.{Memory, big, max_size}
use ggjs.BigInt.Arith.Extend.{IsBig}
use ggjs.BigInt.Arith.Add.{with_new-granted, sign-le_one}
use ggjs.BigInt.Multiply.{sub_from, corrected, js_bigint_mul}
use ggjs.BigInt.Repr.Span.{
  base_pow_add, drop-IsLimbs, span, above-span, value-append, IsSignOf, sign-IsSignOf,
}
use ggjs.BigInt.Multiply.Wrap.{wrapped, sub_ℕ-mul-sub_ℕ}

append-IsLimbs : (s t : List ℕ) → IsLimbs s → IsLimbs t → IsLimbs (s ++ t)
append-IsLimbs [] t h k = k
append-IsLimbs (x ∷ xs) t h k = (h.0, append-IsLimbs xs t h.1 k)

-- What a correction leaves: the number less `d`, but for a multiple of the span.
record IsLess (d : ℕ) (r s : List ℕ) : Type 0 where
  pub times : ℕ
  pub differs : value s + d ≡ value r + times * span r
  pub limbs : IsLimbs s
  pub same_length : length s ≡ length r

sub_from-IsLess :
    (r : List ℕ) (start : ℕ) (op2 : List ℕ)
    → IsLimbs r
    → IsLimbs op2
    → length r ≡ start + length op2
    → IsLess (base ^ start * value op2) r (sub_from r start op2)
unfolding sub_from
sub_from-IsLess r start op2 hr ho len =
    let low : List ℕ = take start r in
    let high : List ℕ = drop start r in
    let low_length : length low ≡ start = length-take_le start r (omega arith) in
    let high_length : length high ≡ length op2 = omega (arith, length-drop start r) in
    let d = mp_sub-value high op2 0 high_length (drop-IsLimbs start r hr) ho (omega arith) in
    let rest = mp_sub high op2 0 in
    let parts : length r ≡ length low + length high = omega (arith, low_length, high_length, len) in
    let spans : span r ≡ span low * span high =
      ap (λ n. base ^ n) parts ∙ base_pow_add (length low) (length high) in
    let before : value r ≡ value low + span low * value high =
      ap value (sym (take-append-drop start r)) ∙ value-append low high in
    let after = value-append low rest.limbs in
    let top = value-snoc high rest.carry in
    let lifted = above-span rest.carry high in
    let here : base ^ start * value op2 ≡ span low * value op2 =
      ap (λ n. base ^ n * value op2) (sym low_length) in
    let all : span low * (value high + rest.carry * span high)
        ≡ span low * (value rest.limbs + value op2) =
      ap (λ n. span low * n) (omega (arith, top, lifted, d.0)) in
    record {
      times = rest.carry;
      differs = rw (spans, here, before, after) (omega (arith, all));
      limbs = append-IsLimbs low rest.limbs (take-IsLimbs start r hr) d.1;
      same_length = length-append low rest.limbs ∙ omega (arith, parts, d.2);
    }

-- A correction that is made if a sign bit is set.
IsLess-if :
    (s : ℕ) (r : List ℕ) (start : ℕ) (op2 : List ℕ)
    → s ≤ 1
    → IsLimbs r
    → IsLimbs op2
    → length r ≡ start + length op2
    → IsLess (s * (base ^ start * value op2)) r (if s == 0 then r else sub_from r start op2)
IsLess-if zero r start op2 small hr ho len = record {
  times = 0;
  differs = omega arith;
  limbs = hr;
  same_length = refl;
}
IsLess-if (suc zero) r start op2 small hr ho len =
    let c = sub_from-IsLess r start op2 hr ho len in
    record {
      times = c.times;
      differs = omega (arith, c.differs);
      limbs = c.limbs;
      same_length = c.same_length;
    }
IsLess-if (suc (suc s)) r start op2 small hr ho len = absurd (omega arith)

corrected-IsLess :
    (r a b : List ℕ)
    → IsLimbs r
    → IsLimbs a
    → IsLimbs b
    → length r ≡ length a + length b
    → IsLess (sign a * (span a * value b) + sign b * (span b * value a)) r (corrected r a b)
unfolding corrected
corrected-IsLess r a b hr ha hb len =
    let r1 : List ℕ = if sign a == 0 then r else sub_from r (length a) b in
    let first = IsLess-if (sign a) r (length a) b (sign-le_one a ha) hr hb len in
    let second =
      IsLess-if (sign b) r1 (length b) a (sign-le_one b hb) first.limbs ha
        (omega (arith, first.same_length, len)) in
    let same : span r1 ≡ span r = ap (λ n. base ^ n) first.same_length in
    let scaled = ap (λ n. second.times * n) same in
    record {
      times = first.times + second.times;
      differs = omega (arith, first.differs, second.differs, scaled);
      limbs = second.limbs;
      same_length = second.same_length ∙ first.same_length;
    }

product_lem :
    (a b t : List ℕ) (m : ℕ)
    → IsBig a
    → IsBig b
    → IsBig t
    → length t ≡ length a + length b
    → value t + (sign a * (span a * value b) + sign b * (span b * value a))
      ≡ value a * value b + m * span t
    → integer t ≡ integer a *ℤ integer b
unfolding integer
product_lem a b t m ha hb ht len e =
    let spans : span t ≡ span a * span b =
      ap (λ n. base ^ n) len ∙ base_pow_add (length a) (length b) in
    let signed : IsSignOf (sign t) (value t) (span a * span b) =
      rw spans at (sign-IsSignOf t ht.0 ht.1) in
    let multiple = ap (λ n. m * n) spans in
    let w =
      wrapped (value a) (value b) (value t) (sign a) (sign b) (sign t) m (span a) (span b)
        (sign-IsSignOf a ha.0 ha.1) (sign-IsSignOf b hb.0 hb.1) signed
        (omega (arith, e, multiple)) in
    let scaled = ap (λ n. sign t * n) spans in
    let ta = above-span (sign t) t in
    let aa = above-span (sign a) a in
    let ba = above-span (sign b) b in
    rw (ta, aa, ba)
      (sub_ℕ_ext (value t) (sign t * span t) _ _ (omega (arith, w, scaled))
        ∙ sym (sub_ℕ-mul-sub_ℕ (value a) (sign a * span a) (value b) (sign b * span b)))

-- If the memory for the limbs of both operands is granted and within JS_BIGINT_MAX_SIZE, `js_bigint_mul`
-- returns the product of two `JSBigInt`, as a `JSBigInt` of at most as many limbs as both have.
pub js_bigint_mul-integer :
    (mem : Memory) (a b : List ℕ)
    → IsBig a
    → IsBig b
    → length a + length b ≤ max_size
    → mem.malloc (length a + length b) ≡ true
    → (t : List ℕ) × (js_bigint_mul mem a b ≡ big t)
      × (integer t ≡ integer a *ℤ integer b)
      × IsBig t
      × (length t ≤ length a + length b)
unfolding js_bigint_mul
js_bigint_mul-integer mem a b ha hb small granted =
    let (whole, limbs, len) = mp_mul_basecase-value a b hb.1 ha.0 hb.0 in
    let r : List ℕ = mp_mul_basecase a b in
    let c = corrected-IsLess r a b limbs ha.0 hb.0 len in
    let t : List ℕ = corrected r a b in
    let size : length t ≡ length a + length b = c.same_length ∙ len in
    let some : 0 < length t = omega (arith, size, ha.1) in
    let same : value a * value b + c.times * span r ≡ value a * value b + c.times * span t =
      ap (λ l. value a * value b + c.times * base ^ l) (sym c.same_length) in
    let n = normalize-integer t c.limbs some in
    (
      normalize t,
      with_new-granted mem (length a + length b) (big (normalize t)) small granted,
      n.0
          ∙ product_lem a b t c.times ha hb (c.limbs, some) size
              (c.differs ∙ ap (λ v. v + c.times * span r) whole ∙ same),
      (n.1, n.2),
      omega (arith, n.3, size),
    )
