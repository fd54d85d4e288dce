-- ===== src/BigInt/Convert/Saturate.antt =====
-- `js_bigint_get_si_sat` of a normalised `JSBigInt` is the nearest `int64_t`.
use ggjs.Common.{
  ℕ, ◌+◌, ◌-◌, ◌^◌, ◌≤◌, ◌<◌, ◌≡◌, refl, ap, sym, ◌∙◌, true, false, List, [], ◌∷◌, length, ◌==◌,
  if◌then◌else◌, arith, Bool-cases, inl, inr,
}
use ggjs.Common.Int.{ℤ, pos, negsuc, sub_ℕ, ltb_ℤ}
use ggjs.BigInt.Limb.{base, value}
use ggjs.BigInt.Repr.{sign, above, integer}
use ggjs.BigInt.Repr.Minimal.{above_none, value-lt, IsNormal, bound, bound-le, beyond}
use ggjs.BigInt.Arith.Extend.{IsBig}
use ggjs.BigInt.Arith.Add.{sign-le_one}
use ggjs.BigInt.Convert.{js_bigint_get_si_sat}
use ggjs.BigInt.Convert.New.{signed, integer_one}

-- The nearest integer from -2^63 to 2^63 - 1.
abbrev pub clamp : ℤ → ℤ
clamp z =
    if ltb_ℤ z (negsuc (2 ^ 63 - 1))
    then negsuc (2 ^ 63 - 1)
    else if ltb_ℤ (pos (2 ^ 63 - 1)) z
    then pos (2 ^ 63 - 1)
    else z

one_limb : (x : ℕ) → x < base → signed 64 x ≡ clamp (signed 64 x)
one_limb x h = ground arith

over : (v : ℕ) → 2 ^ 63 ≤ v → pos (2 ^ 63 - 1) ≡ clamp (sub_ℕ v 0)
over v h = ground arith

under : (v w : ℕ) → v + 2 ^ 63 < w → negsuc (2 ^ 63 - 1) ≡ clamp (sub_ℕ v w)
under v w h = ground arith

sat_over :
    (t : List ℕ)
    → (length t == 1) ≡ false
    → (sign t == 0) ≡ true
    → js_bigint_get_si_sat t ≡ 2 ^ 63 - 1
unfolding js_bigint_get_si_sat
sat_over t e f = rw (e, f) refl

sat_under :
    (t : List ℕ) → (length t == 1) ≡ false → (sign t == 0) ≡ false → js_bigint_get_si_sat t ≡ 2 ^ 63
unfolding js_bigint_get_si_sat
sat_under t e f = rw (e, f) refl

integer-positive : (t : List ℕ) → sign t ≡ 0 → integer t ≡ sub_ℕ (value t) 0
unfolding integer
integer-positive t e = ap (sub_ℕ (value t)) (ap (λ s. above s t) e ∙ above_none t)

integer-negative : (t : List ℕ) → sign t ≡ 1 → integer t ≡ sub_ℕ (value t) (above 1 t)
unfolding integer
integer-negative t e = ap (sub_ℕ (value t)) (ap (λ s. above s t) e)

-- For a normalised `JSBigInt`, `js_bigint_get_si_sat` returns the `int64_t` nearest to the integer.
pub js_bigint_get_si_sat-clamp :
    (t : List ℕ) → IsBig t → IsNormal t → signed 64 (js_bigint_get_si_sat t) ≡ clamp (integer t)
unfolding js_bigint_get_si_sat bound
js_bigint_get_si_sat-clamp [] h n = absurd (omega (arith, h.1))
js_bigint_get_si_sat-clamp (x ∷ []) h n = one_limb x h.0.0 ∙ ap clamp (sym (integer_one x))
js_bigint_get_si_sat-clamp (x ∷ y ∷ u) h n =
    let t : List ℕ = x ∷ y ∷ u in
    let more : (length t == 1) ≡ false = ground arith in
    let large = bound-le 1 (length (y ∷ u)) (omega arith) in
    let far = beyond x (y ∷ u) h.0 (omega arith) n in
    let small = value-lt t h.0 in
    let bit = sign-le_one t h.0 in
    elim (Bool-cases (sign t == 0)) [
      | inl e ↦
          let s : sign t ≡ 0 = ground arith in
          let height : above (sign t) t ≡ 0 = ap (λ s. above s t) s ∙ above_none t in
          ap (signed 64) (sat_over t more e)
          ∙ over (value t) (elim far [
            | inl k ↦ omega (arith, large, k)
            | inr k ↦ absurd (omega (arith, height, k))
          ])
          ∙ ap clamp (sym (integer-positive t s))
      | inr e ↦
          let s : sign t ≡ 1 = ground arith in
          let height : above (sign t) t ≡ above 1 t = ap (λ s. above s t) s in
          ap (signed 64) (sat_under t more e)
          ∙ under (value t) (above 1 t) (elim far [
            | inl k ↦ absurd (omega (arith, height, small, k))
            | inr k ↦ omega (arith, height, large, k)
          ])
          ∙ ap clamp (sym (integer-negative t s))
    ]
