-- ===== src/BigInt/Arith/Add.antt =====
-- `js_bigint_add` of quickjs.c adds and subtracts integers.
use ggjs.Common.{
  ℕ, zero, suc, ◌+◌, ◌-◌, ◌*◌, ◌/◌, ◌^◌, ◌≤◌, ◌≡◌, ap, ◌∙◌, true, List, length, max, arith, map,
  if◌then◌else◌, ◌==◌,
}
use ggjs.Common.Int.{sub_ℕ_ext, ◌+ℤ◌, ◌-ℤ◌, eq_of_parts, +ℤ_parts, -ℤ_parts, sub_ℕ, sub_ℕ_parts}
use ggjs.BigInt.Limb.{base, limb, value, snoc, IsLimbs}
use ggjs.BigInt.Repr.{sign, integer, above, ones}
use ggjs.BigInt.Repr.Extend.{value-snoc, above-snoc, above_add, sign-snoc}
use ggjs.BigInt.Repr.Take.{get_or-lt}
use ggjs.BigInt.Arith.{
  max_size, Memory, Result, big, negated, extend, add_loop, with_new, js_bigint_add,
}
use ggjs.BigInt.Arith.Extend.{IsBig, extend-integer}
use ggjs.BigInt.Arith.Carry.{
  flip, flip-zero, flip-one, value-flip_zero, value-flip_one, add_loop-value,
}

pub sign-le_one : (t : List ℕ) → IsLimbs t → sign t ≤ 1
unfolding sign
sign-le_one t h = omega (arith, get_or-lt t (length t - 1) h)

negated-mul : (s : ℕ) → s ≤ 1 → negated s ≡ ones * s
negated-mul s h = omega arith

-- The sign bit of the second operand as it is added.
abbrev second_sign : ℕ → ℕ → ℕ
second_sign zero s = s
second_sign (suc n) s = 1 - s

second_sign_lem :
    (n s : ℕ)
    → n ≤ 1
    → s ≤ 1
    → (flip n (negated s) ≡ ones * second_sign n s) × (second_sign n s ≤ 1)
second_sign_lem zero s hn hs = (flip-zero (negated s) ∙ negated-mul s hs, hs)
second_sign_lem (suc zero) s hn hs = omega (arith, flip-one (negated s) (omega arith))
second_sign_lem (suc (suc n)) s hn hs = absurd (omega arith)

-- The integer of the loops' result with the limb of the signs and the carry on top.
top_lem :
    (r : List ℕ) (sa sb c p q : ℕ)
    → sa ≤ 1
    → sb ≤ 1
    → c ≤ 1
    → value (snoc r c) + p ≡ q + above (sa + sb) r
    → integer (snoc r (limb (ones * sa + ones * sb + c))) ≡ sub_ℕ q p
unfolding integer
top_lem r sa sb c p q ha hb hc e =
    let op1 : ℕ = limb (ones * sa + ones * sb + c) in
    let top : ℕ = op1 / 2 ^ 63 in
    let coefficients : op1 + (sa + sb) ≡ c + base * top = omega arith in
    let heights : above (op1 + (sa + sb)) r ≡ above (c + base * top) r =
      ap (λ (s : ℕ). above s r) coefficients in
    rw (sign-snoc r op1) (
      sub_ℕ_ext (value (snoc r op1)) (above top (snoc r op1)) q p (
        omega (
          arith,
          e,
          heights,
          value-snoc r op1,
          value-snoc r c,
          above-snoc top r op1,
          above_add op1 (sa + sb) r,
          above_add c (base * top) r,
        )))

-- What the loops add up to, as integers.
sum_lem :
    (n : ℕ) (a b : List ℕ)
    → n ≤ 1
    → IsLimbs b
    → sign b ≤ 1
    → sub_ℕ
        (value a + value (map (flip n) b) + n)
        (above (sign a) a + above (second_sign n (sign b)) b)
      ≡ (if n == 0 then integer a +ℤ integer b else integer a -ℤ integer b)
unfolding integer
sum_lem zero a b hn hb hs =
    let va = sub_ℕ_parts (value a) (above (sign a) a) in
    let vb = sub_ℕ_parts (value b) (above (sign b) b) in
    eq_of_parts _ _ (
      omega (
        arith,
        va,
        vb,
        value-flip_zero b,
        +ℤ_parts (integer a) (integer b),
        sub_ℕ_parts (value a + value (map (flip 0) b) + 0) (above (sign a) a + above (sign b) b),
      ))
sum_lem (suc zero) a b hn hb hs =
    let va = sub_ℕ_parts (value a) (above (sign a) a) in
    let vb = sub_ℕ_parts (value b) (above (sign b) b) in
    let whole : above (1 - sign b + sign b) b ≡ above 1 b =
      ap (λ (s : ℕ). above s b) (omega arith) in
    eq_of_parts _ _ (
      omega (
        arith,
        va,
        vb,
        whole,
        above_add (1 - sign b) (sign b) b,
        value-flip_one b hb,
        -ℤ_parts (integer a) (integer b),
        sub_ℕ_parts (value a + value (map (flip 1) b) + 1)
            (above (sign a) a + above (1 - sign b) b),
      ))
sum_lem (suc (suc n)) a b hn hb hs = absurd (omega arith)

pub with_new-granted :
    (mem : Memory) (len : ℕ) (rest : Result)
    → len ≤ max_size
    → mem.malloc len ≡ true
    → with_new mem len rest ≡ rest
unfolding with_new
with_new-granted mem len rest small granted = ground arith

module _ (mem : Memory) (a b : List ℕ) (n : ℕ) where
  -- If the memory is granted and the operands are within JS_BIGINT_MAX_SIZE, `js_bigint_add`
  -- returns the sum of two `JSBigInt`, or with `b_neg` their difference, as a `JSBigInt`.
  pub js_bigint_add-integer :
      n ≤ 1
      → IsBig a
      → IsBig b
      → max (length a) (length b) ≤ max_size
      → mem.malloc (max (length a) (length b)) ≡ true
      → mem.realloc (max (length a) (length b) + 1) ≡ true
      → (t : List ℕ) × (js_bigint_add mem a b n ≡ big t)
        × (integer t ≡ (if n == 0 then integer a +ℤ integer b else integer a -ℤ integer b))
        × IsBig t
  unfolding js_bigint_add
  js_bigint_add-integer hn ha hb small malloc realloc =
      let sa = sign-le_one a ha.0 in
      let s = sign-le_one b hb.0 in
      let second = second_sign_lem n (sign b) hn s in
      let sb : ℕ = second_sign n (sign b) in
      let loops = add_loop-value n (sign a) sb a b n hn sa second.1 ha.0 hb.0 hn in
      let r = add_loop n (ones * sign a) (ones * sb) a b n in
      let op1 : ℕ = limb (ones * sign a + ones * sb + r.carry) in
      let top =
        top_lem r.limbs (sign a) sb r.carry (above (sign a) a + above sb b)
          (value a + value (map (flip n) b) + n) sa second.1 loops.3 (omega (arith, loops.0)) in
      let same : mem.realloc (length r.limbs + 1) ≡ true = rw loops.2 realloc in
      let e =
        extend-integer mem r.limbs op1 (loops.1, omega (arith, loops.2, ha.1)) (omega arith) same in
      rw (negated-mul (sign a) sa, second.0)
        (
          e.0,
          with_new-granted mem (max (length a) (length b)) (extend mem r.limbs op1) small malloc
              ∙ e.1,
          e.2 ∙ top ∙ sum_lem n a b hn hb.0 s,
          e.3,
        )
