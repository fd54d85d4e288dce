-- ===== src/BigInt/Repr/Extend.antt =====
-- A limb above an array: what it adds, and when it adds nothing.
use ggjs.Common.{
  ℕ, suc, ◌+◌, ◌-◌, ◌*◌, ◌/◌, ◌^◌, ◌<◌, ◌≡◌, refl, List, [], ◌∷◌, length, get_or, arith, ap, sym,
  ◌∙◌,
}
use ggjs.Common.Int.{sub_ℕ_ext}
use ggjs.BigInt.Limb.{length-snoc, base, value, snoc}
use ggjs.BigInt.Repr.{sign, above, integer}

pub value-snoc : (xs : List ℕ) (v : ℕ) → value (snoc xs v) ≡ value xs + above v xs
unfolding value snoc above
value-snoc [] v = omega arith
value-snoc (x ∷ xs) v = omega (arith, value-snoc xs v)

pub above-snoc : (s : ℕ) (xs : List ℕ) (v : ℕ) → above s (snoc xs v) ≡ above (base * s) xs
unfolding snoc above
above-snoc s [] v = refl
above-snoc s (x ∷ xs) v = omega (arith, above-snoc s xs v)

pub above_add : (s t : ℕ) (xs : List ℕ) → above (s + t) xs ≡ above s xs + above t xs
unfolding above
above_add s t [] = refl
above_add s t (x ∷ xs) = omega (arith, above_add s t xs)

pub get_or-snoc : (xs : List ℕ) (v : ℕ) → get_or (snoc xs v) (length xs) 0 ≡ v
unfolding snoc
get_or-snoc [] v = refl
get_or-snoc (x ∷ xs) v = get_or-snoc xs v

pub sign-snoc : (xs : List ℕ) (v : ℕ) → sign (snoc xs v) ≡ v / 2 ^ 63
unfolding sign
sign-snoc xs v =
    rw length-snoc (let e : suc (length xs) - 1 ≡ length xs = omega arith in rw (e, get_or-snoc))

-- A limb that repeats the sign of the array below it adds nothing.
pub integer-snoc :
    (xs : List ℕ) (v : ℕ)
    → v < base
    → v + sign xs ≡ base * sign xs
    → v / 2 ^ 63 ≡ sign xs
    → integer (snoc xs v) ≡ integer xs
unfolding integer
integer-snoc xs v h e s =
    let top : sign (snoc xs v) ≡ sign xs = sign-snoc xs v ∙ s in
    let folded : above (base * sign xs) xs ≡ above v xs + above (sign xs) xs =
      ap (λ (t : ℕ). above t xs) (sym e) ∙ above_add v (sign xs) xs in
    rw top (
      sub_ℕ_ext (value (snoc xs v)) (above (sign xs) (snoc xs v)) (value xs) (above (sign xs) xs)
        (omega (arith, value-snoc xs v, above-snoc (sign xs) xs v, folded)))
