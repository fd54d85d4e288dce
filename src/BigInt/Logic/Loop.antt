-- ===== src/BigInt/Logic/Loop.antt =====
-- The limbs that the loops of `js_bigint_logic` write.
use ggjs.Common.{
  ℕ, zero, suc, ◌-◌, ◌≤◌, ◌<◌, ◌≡◌, refl, ap, ◌∙◌, List, [], ◌∷◌, length, get_or, arith, lt_or_le,
  inl, inr,
}
use ggjs.Common.Bits.Each.{
  bit, IsBitwise, op-lt, bit_and-IsBitwise, bit_or-IsBitwise, bit_xor-IsBitwise,
}
use ggjs.BigInt.Limb.{base, IsLimbs}
use ggjs.BigInt.Repr.{sign}
use ggjs.BigInt.Repr.Take.{get_or-lt}
use ggjs.BigInt.Arith.{negated}
use ggjs.BigInt.Arith.Extend.{IsBig}
use ggjs.BigInt.Arith.Add.{sign-le_one}
use ggjs.BigInt.Logic.{LogicOp, op_or, op_and, op_xor, on_words, logic_loop}
use ggjs.BigInt.Logic.Bits.{digit, negated-bit}

pub on_words-IsBitwise : (op : LogicOp) → IsBitwise (on_words op)
unfolding on_words
on_words-IsBitwise op_or = bit_or-IsBitwise
on_words-IsBitwise op_and = bit_and-IsBitwise
on_words-IsBitwise op_xor = bit_xor-IsBitwise

pub on_words_comm : (op : LogicOp) (x y : ℕ) → x < 2 → y < 2 → on_words op x y ≡ on_words op y x
unfolding on_words
on_words_comm op zero zero h k = refl
on_words_comm op_or zero (suc zero) h k = refl
on_words_comm op_and zero (suc zero) h k = refl
on_words_comm op_xor zero (suc zero) h k = refl
on_words_comm op (suc zero) (suc zero) h k = refl
on_words_comm op_or (suc zero) zero h k = refl
on_words_comm op_and (suc zero) zero h k = refl
on_words_comm op_xor (suc zero) zero h k = refl
on_words_comm op (suc (suc x)) y h k = absurd (omega arith)
on_words_comm op x (suc (suc y)) h k = absurd (omega arith)

get_or-past : (t : List ℕ) (i d : ℕ) → length t ≤ i → get_or t i d ≡ d
get_or-past [] i d h = refl
get_or-past (x ∷ t) zero d h = absurd (omega arith)
get_or-past (x ∷ t) (suc i) d h = get_or-past t i d (omega arith)

get_or-within : (t : List ℕ) (i d e : ℕ) → i < length t → get_or t i d ≡ get_or t i e
get_or-within [] i d e h = absurd (omega arith)
get_or-within (x ∷ t) zero d e h = refl
get_or-within (x ∷ t) (suc i) d e h = get_or-within t i d e (omega arith)

pub length-logic_loop :
    (op : LogicOp) (s : ℕ) (a b : List ℕ) → length (logic_loop op s a b) ≡ length a
unfolding logic_loop
length-logic_loop op s [] b = refl
length-logic_loop op s (x ∷ a) [] = ap suc (length-logic_loop op s a [])
length-logic_loop op s (x ∷ a) (y ∷ b) = ap suc (length-logic_loop op s a b)

pub logic_loop-IsLimbs :
    (op : LogicOp) (s : ℕ) (a b : List ℕ)
    → s < base
    → IsLimbs a
    → IsLimbs b
    → IsLimbs (logic_loop op s a b)
unfolding logic_loop
logic_loop-IsLimbs op s [] b h ha hb = tt
logic_loop-IsLimbs op s (x ∷ a) [] h ha hb = (
  op-lt (on_words op) (on_words-IsBitwise op) 64 x s ha.0 h,
  logic_loop-IsLimbs op s a [] h ha.1 tt,
)
logic_loop-IsLimbs op s (x ∷ a) (y ∷ b) h ha hb = (
  op-lt (on_words op) (on_words-IsBitwise op) 64 x y ha.0 hb.0,
  logic_loop-IsLimbs op s a b h ha.1 hb.1,
)

pub get_or-logic_loop :
    (op : LogicOp) (s : ℕ) (a b : List ℕ) (i d e : ℕ)
    → i < length a
    → get_or (logic_loop op s a b) i d ≡ on_words op (get_or a i e) (get_or b i s)
unfolding logic_loop
get_or-logic_loop op s [] b i d e h = absurd (omega arith)
get_or-logic_loop op s (x ∷ a) [] zero d e h = refl
get_or-logic_loop op s (x ∷ a) [] (suc i) d e h = get_or-logic_loop op s a [] i d e (omega arith)
get_or-logic_loop op s (x ∷ a) (y ∷ b) zero d e h = refl
get_or-logic_loop op s (x ∷ a) (y ∷ b) (suc i) d e h =
    get_or-logic_loop op s a b i d e (omega arith)

-- From the last limb on the top bits are the sign.
pub digit-past : (t : List ℕ) (i : ℕ) → length t ≤ i → digit t i ≡ negated (sign t)
unfolding digit
digit-past t i h = get_or-past t i (negated (sign t)) h

pub digit-top : (t : List ℕ) (i : ℕ) → IsBig t → length t ≤ suc i → bit (digit t i) 63 ≡ sign t
unfolding digit sign
digit-top t i h l = elim (lt_or_le i (length t)) [
  | inl q ↦
      let e : i ≡ length t - 1 = omega arith in
      let small : get_or t (length t - 1) 0 < base = get_or-lt t (length t - 1) h.0 in
      ap (λ x. bit x 63) (get_or-within t i (negated (sign t)) 0 q ∙ ap (λ n. get_or t n 0) e)
      ∙ omega arith
  | inr q ↦
      ap (λ x. bit x 63) (get_or-past t i (negated (sign t)) q)
      ∙ negated-bit (sign t) 63 (sign-le_one t h.0) (omega arith)
]
