-- ===== src/BigInt/Shift/Pad.antt =====
-- Limbs of zero below an array multiply its integer by a power of two.
use ggjs.Common.{
  [], ◌<◌, ℕ, zero, suc, ◌+◌, ◌*◌, ◌^◌, ◌≡◌, refl, ap, sym, ◌∙◌, List, ◌∷◌, ◌++◌, length, replicate,
  arith,
}
use mathlib.Core.Path.{ap₂}
use ggjs.Common.Int.{ℤ, pos, sub_ℕ, sub_ℕ_ext, sub_ℕ_parts, ◌*ℤ◌, pos_part, neg_part}
use ggjs.BigInt.Limb.{base, limb_bits, IsLimbs, value, snoc}
use ggjs.BigInt.Mp.Shift.{pow-add}
use ggjs.BigInt.Repr.{sign, above, integer}
use ggjs.BigInt.Repr.Minimal.{sign-cons}

-- `d` limbs of zero below an array.
abbrev pub padded : ℕ → List ℕ → List ℕ
padded d t = replicate d 0 ++ t

pub length-padded : (d : ℕ) (t : List ℕ) → length (padded d t) ≡ d + length t
length-padded zero t = omega arith
length-padded (suc d) t = omega (arith, length-padded d t)

pub padded-IsLimbs : (d : ℕ) (t : List ℕ) → IsLimbs t → IsLimbs (padded d t)
padded-IsLimbs zero t h = h
padded-IsLimbs (suc d) t h = (omega arith, padded-IsLimbs d t h)

pub snoc-padded : (d : ℕ) (t : List ℕ) (v : ℕ) → snoc (padded d t) v ≡ padded d (snoc t v)
unfolding snoc
snoc-padded zero t v = refl
snoc-padded (suc d) t v = ap (◌∷◌ 0) (snoc-padded d t v)

pow-limb : (d : ℕ) → 2 ^ (limb_bits * suc d) ≡ base * 2 ^ (limb_bits * d)
pow-limb d =
    let e : limb_bits * suc d ≡ limb_bits + limb_bits * d = omega arith in
    ap (λ n. 2 ^ n) e ∙ pow-add limb_bits (limb_bits * d)

value-padded : (d : ℕ) (t : List ℕ) → value (padded d t) ≡ value t * 2 ^ (limb_bits * d)
unfolding value
value-padded zero t = omega arith
value-padded (suc d) t = omega (arith, value-padded d t, ap (λ p. value t * p) (pow-limb d))

above-padded : (s d : ℕ) (t : List ℕ) → above s (padded d t) ≡ above s t * 2 ^ (limb_bits * d)
unfolding above
above-padded s zero t = omega arith
above-padded s (suc d) t = omega (arith, above-padded s d t, ap (λ p. above s t * p) (pow-limb d))

sign-padded : (d x : ℕ) (t : List ℕ) → sign (padded d (x ∷ t)) ≡ sign (x ∷ t)
sign-padded zero x t = refl
sign-padded (suc zero) x t = sign-cons 0 x t
sign-padded (suc (suc d)) x t = sign-cons 0 0 (padded d (x ∷ t)) ∙ sign-padded (suc d) x t

-- A difference times a number.
pub sub_ℕ-mul : (v a m : ℕ) → sub_ℕ v a *ℤ pos m ≡ sub_ℕ (v * m) (a * m)
unfolding ◌*ℤ◌
sub_ℕ-mul v a m =
    let z : ℤ = sub_ℕ v a in
    let scaled = ap (λ n. n * m) (sub_ℕ_parts v a) in
    sub_ℕ_ext (pos_part z * m + neg_part z * 0) (pos_part z * 0 + neg_part z * m) (v * m) (a * m)
      (omega (arith, scaled))

integer-padded-cons :
    (d x : ℕ) (t : List ℕ)
    → integer (padded d (x ∷ t)) ≡ integer (x ∷ t) *ℤ pos (2 ^ (limb_bits * d))
unfolding integer
integer-padded-cons d x t =
    let u : List ℕ = x ∷ t in
    let height : above (sign (padded d u)) (padded d u) ≡ above (sign u) u * 2 ^ (limb_bits * d) =
      ap (λ s. above s (padded d u)) (sign-padded d x t) ∙ above-padded (sign u) d u in
    ap₂ sub_ℕ (value-padded d u) height
    ∙ sym (sub_ℕ-mul (value u) (above (sign u) u) (2 ^ (limb_bits * d)))

pub integer-padded :
    (d : ℕ) (t : List ℕ)
    → 0 < length t
    → integer (padded d t) ≡ integer t *ℤ pos (2 ^ (limb_bits * d))
integer-padded d [] h = absurd (omega arith)
integer-padded d (x ∷ t) h = integer-padded-cons d x t
