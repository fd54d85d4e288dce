-- ===== src/BigInt/Logic/Each.antt =====
-- `js_bigint_logic` works on each bit of the integers.
use ggjs.Common.{
  ℕ, suc, ◌+◌, ◌-◌, ◌*◌, ◌/◌, ◌%◌, ◌≤◌, ◌<◌, ◌≡◌, refl, ap, sym, ◌∙◌, true, List, length, max, ltb,
  arith, Bool-cases, lt_or_le, inl, inr,
}
use ggjs.Common.Bits.Each.{bit, bit-op}
use ggjs.Common.Int.{ℤ, pos, negsuc}
use ggjs.BigInt.Limb.{base, limb_bits}
use ggjs.BigInt.Repr.{sign, integer, normalize}
use ggjs.BigInt.Repr.Normal.{normalize-integer}
use ggjs.BigInt.Arith.{Memory, big, max_size, negated}
use ggjs.BigInt.Arith.Extend.{IsBig}
use ggjs.BigInt.Arith.Add.{with_new-granted, sign-le_one}
use ggjs.BigInt.Logic.{LogicOp, on_words, logic_loop, logic_ordered, js_bigint_logic}
use ggjs.BigInt.Logic.Bits.{bit_ℤ, digit, bit_ℤ-integer, negated-bit}
use ggjs.BigInt.Logic.Loop.{
  on_words-IsBitwise, on_words_comm, length-logic_loop, logic_loop-IsLimbs, get_or-logic_loop,
  digit-past, digit-top,
}

-- Each bit of `c` is what the operation makes of the bits of `a` and `b`.
pub AreBits : LogicOp → (a b c : ℤ) → Type 0
AreBits op a b c = (k : ℕ) → bit_ℤ c k ≡ on_words op (bit_ℤ a k) (bit_ℤ b k)

module _ (op : LogicOp) (a b : List ℕ) (ha : IsBig a) (hb : IsBig b)
    (longer : length b ≤ length a) where
  -- What the loops write.
  result : List ℕ
  result = logic_loop op (negated (sign b)) a b

  result-IsBig : IsBig result
  unfolding result
  result-IsBig =
      let s : negated (sign b) < base = omega arith in
      (
        logic_loop-IsLimbs op (negated (sign b)) a b s ha.0 hb.0,
        omega (arith, length-logic_loop op (negated (sign b)) a b, ha.1),
      )

  bit-within :
      (i j : ℕ)
      → i < length a
      → bit (digit result i) j ≡ on_words op (bit (digit a i) j) (bit (digit b i) j)
  unfolding result digit
  bit-within i j h =
      ap (λ x. bit x j)
        (get_or-logic_loop op (negated (sign b)) a b i (negated (sign result)) (negated (sign a)) h)
      ∙ bit-op (on_words op) (on_words-IsBitwise op) j (digit a i) (digit b i)

  sign-result : sign result ≡ on_words op (sign a) (sign b)
  unfolding result
  sign-result =
      let last : ℕ = length a - 1 in
      let size : length result ≤ suc last =
        omega (arith, length-logic_loop op (negated (sign b)) a b) in
      let ta = digit-top a last ha (omega arith) in
      let tb = digit-top b last hb (omega arith) in
      sym (digit-top result last result-IsBig size)
      ∙ bit-within last 63 (omega (arith, ha.1))
      ∙ rw (ta, tb) refl

  bit-past :
      (i j : ℕ)
      → length a ≤ i
      → j < limb_bits
      → bit (digit result i) j ≡ on_words op (bit (digit a i) j) (bit (digit b i) j)
  unfolding result
  bit-past i j h l =
      let size : length result ≤ i = omega (arith, length-logic_loop op (negated (sign b)) a b) in
      let r =
        ap (λ x. bit x j) (digit-past result i size)
        ∙ negated-bit (sign result) j (sign-le_one result result-IsBig.0) l in
      let x =
        ap (λ x. bit x j) (digit-past a i h) ∙ negated-bit (sign a) j (sign-le_one a ha.0) l in
      let y =
        ap (λ x. bit x j) (digit-past b i (omega arith))
        ∙ negated-bit (sign b) j (sign-le_one b hb.0) l in
      r ∙ sign-result ∙ rw (x, y) refl

  result-AreBits : AreBits op (integer a) (integer b) (integer result)
  unfolding AreBits
  result-AreBits k =
      let i : ℕ = k / limb_bits in
      let j : ℕ = k % limb_bits in
      let whole : k ≡ limb_bits * i + j = omega arith in
      let l : j < limb_bits = omega arith in
      let each : bit (digit result i) j ≡ on_words op (bit (digit a i) j) (bit (digit b i) j) =
        elim (lt_or_le i (length a)) [ inl q ↦ bit-within i j q | inr q ↦ bit-past i j q l ] in
      let at_parts : bit_ℤ (integer result) (limb_bits * i + j)
          ≡ on_words op (bit_ℤ (integer a) (limb_bits * i + j))
              (bit_ℤ (integer b) (limb_bits * i + j)) =
        rw
          (
            bit_ℤ-integer result i j result-IsBig.0 l,
            bit_ℤ-integer a i j ha.0 l,
            bit_ℤ-integer b i j hb.0 l,
          )
          each in
      rw whole at_parts

bit_ℤ-lt : (z : ℤ) (k : ℕ) → bit_ℤ z k < 2
unfolding bit_ℤ
bit_ℤ-lt (pos n) k = omega arith
bit_ℤ-lt (negsuc n) k = omega arith

AreBits-comm : (op : LogicOp) (a b c : ℤ) → AreBits op b a c → AreBits op a b c
unfolding AreBits
AreBits-comm op a b c h k =
    h k ∙ on_words_comm op (bit_ℤ b k) (bit_ℤ a k) (bit_ℤ-lt b k) (bit_ℤ-lt a k)

logic_ordered-AreBits :
    (mem : Memory) (a b : List ℕ) (op : LogicOp)
    → IsBig a
    → IsBig b
    → length b ≤ length a
    → length a ≤ max_size
    → mem.malloc (length a) ≡ true
    → (t : List ℕ) × (logic_ordered mem a b op ≡ big t)
      × AreBits op (integer a) (integer b) (integer t)
      × IsBig t
unfolding logic_ordered result
logic_ordered-AreBits mem a b op ha hb longer small granted =
    let r : List ℕ = result op a b ha hb longer in
    let i = result-IsBig op a b ha hb longer in
    let n = normalize-integer r i.0 i.1 in
    (
      normalize r,
      with_new-granted mem (length a) (big (normalize r)) small granted,
      rw n.0 (result-AreBits op a b ha hb longer),
      (n.1, n.2),
    )

-- If the memory for the limbs of the longer operand is granted and within JS_BIGINT_MAX_SIZE,
-- `js_bigint_logic` returns a `JSBigInt` of which each bit, in two's complement without end, is what
-- the operation makes of the bits of two `JSBigInt`.
pub js_bigint_logic-AreBits :
    (mem : Memory) (a b : List ℕ) (op : LogicOp)
    → IsBig a
    → IsBig b
    → max (length a) (length b) ≤ max_size
    → mem.malloc (max (length a) (length b)) ≡ true
    → (t : List ℕ) × (js_bigint_logic mem a b op ≡ big t)
      × AreBits op (integer a) (integer b) (integer t)
      × IsBig t
unfolding js_bigint_logic
js_bigint_logic-AreBits mem a b op ha hb small granted =
    elim (Bool-cases (ltb (length a) (length b))) [
      | inl e ↦
          let size : max (length a) (length b) ≡ length b = ground arith in
          let (t, ran, bits, i) =
            logic_ordered-AreBits mem b a op hb ha (ground arith) (omega arith)
              (rw size at granted) in
          (t, rw e ran, AreBits-comm op (integer a) (integer b) (integer t) bits, i)
      | inr e ↦
          let size : max (length a) (length b) ≡ length a = ground arith in
          let (t, ran, bits, i) =
            logic_ordered-AreBits mem a b op ha hb (ground arith) (omega arith)
              (rw size at granted) in
          (t, rw e ran, bits, i)
    ]
