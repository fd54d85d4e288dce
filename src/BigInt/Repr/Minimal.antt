-- ===== src/BigInt/Repr/Minimal.antt =====
-- `js_bigint_normalize1` leaves "the minimum possible" number of limbs.
use mathlib.Core.Path.{subst}
use native.Mathlib.Decide.{dec_lt}
use ggjs.Common.{
  ℕ, zero, suc, ◌+◌, ◌-◌, ◌*◌, ◌/◌, ◌^◌, ◌≤◌, ◌<◌, ◌≡◌, refl, ap, sym, ◌∙◌, ◌⊎◌, inl, inr, true,
  List, [], ◌∷◌, length, get_or, take, arith, Bool-cases,
}
use ggjs.Common.Bits.{bit_and-low}
use ggjs.BigInt.Repr.Extend.{sign-snoc}
use ggjs.Common.Int.{sub_ℕ_parts, pos_part, neg_part}
use ggjs.BigInt.Repr.{integer, normalize_loop, normalize1, normalize}
use ggjs.BigInt.Repr.Normal.{normalize-integer}
use ggjs.BigInt.Limb.{snoc, base, IsLimbs, value}
use ggjs.BigInt.Repr.{sign, above, is_needed}

-- Half of the power of the base: the integers of so many limbs lie below it and from its negative on.
unfoldable pub bound : ℕ → ℕ
bound zero = 0
bound (suc zero) = 2 ^ 63
bound (suc (suc n)) = base * bound (suc n)

pub bound-le : (n m : ℕ) → n ≤ m → bound n ≤ bound m
unfolding bound
bound-le zero m h = omega arith
bound-le (suc n) zero h = absurd (omega arith)
bound-le (suc zero) (suc zero) h = omega arith
bound-le (suc zero) (suc (suc m)) h = omega (arith, bound-le (suc zero) (suc m) (omega arith))
bound-le (suc (suc n)) (suc zero) h = absurd (omega arith)
bound-le (suc (suc n)) (suc (suc m)) h = omega (arith, bound-le (suc n) (suc m) (omega arith))

pub sign-cons : (x y : ℕ) (t : List ℕ) → sign (x ∷ y ∷ t) ≡ sign (y ∷ t)
unfolding sign
sign-cons x y t =
    let one : suc (suc (length t)) - 1 ≡ suc (length t) = omega arith in
    let two : suc (length t) - 1 ≡ length t = omega arith in
    ap (λ n. get_or (x ∷ y ∷ t) n 0 / 2 ^ 63) one ∙ sym (ap (λ n. get_or (y ∷ t) n 0 / 2 ^ 63) two)

pub above_none : (t : List ℕ) → above 0 t ≡ 0
unfolding above
above_none [] = refl
above_none (x ∷ t) = omega (arith, above_none t)

pub value-lt : (t : List ℕ) → IsLimbs t → value t < above 1 t
unfolding value above
value-lt [] h = omega arith
value-lt (x ∷ t) h = omega (arith, value-lt t h.1, h.0)

-- The integer of any limbs is within the bound of their number.
pub within :
    (t : List ℕ)
    → IsLimbs t
    → 0 < length t
    → (value t < above (sign t) t + bound (length t))
      × (above (sign t) t ≤ value t + bound (length t))
unfolding value above bound
within [] h pos = absurd (omega arith)
within (x ∷ []) h pos = unfold sign in (omega (arith, h.0), omega (arith, h.0))
within (x ∷ y ∷ t) h pos =
    let ih = within (y ∷ t) h.1 (omega arith) in
    let same = ap (λ s. above s (y ∷ t)) (sign-cons x y t) in
    (omega (arith, ih.0, h.0, same), omega (arith, ih.1, same))

-- The highest limb is needed above the one below it.
abbrev pub IsNormal : List ℕ → Type 0
IsNormal [] = Unit {0}
IsNormal (x ∷ []) = Unit {0}
IsNormal (x ∷ y ∷ []) = is_needed y x ≡ true
IsNormal (x ∷ y ∷ z ∷ t) = IsNormal (y ∷ z ∷ t)

needed_lem :
    (x y : ℕ)
    → x < base
    → y < base
    → is_needed y x ≡ true
    → (y / 2 ^ 63 * (base * base) + 2 ^ 63 ≤ x + base * y)
      ⊎ (x + base * y + 2 ^ 63 < y / 2 ^ 63 * (base * base))
needed_lem x y hx hy h = ground (arith, bit_and-low 1 y)

-- A limb that is needed takes the integer out of the bound of one limb less.
pub beyond :
    (x : ℕ) (u : List ℕ)
    → IsLimbs (x ∷ u)
    → 0 < length u
    → IsNormal (x ∷ u)
    → (above (sign (x ∷ u)) (x ∷ u) + bound (length u) ≤ value (x ∷ u))
      ⊎ (value (x ∷ u) + bound (length u) < above (sign (x ∷ u)) (x ∷ u))
unfolding value above bound snoc
beyond x [] h l n = absurd (omega arith)
beyond x (y ∷ []) h l n =
    let top : sign (x ∷ y ∷ []) ≡ y / 2 ^ 63 = sign-cons x y [] ∙ sign-snoc [] y in
    elim (needed_lem x y h.0 h.1.0 n) [
      | inl k ↦ inl (omega (arith, k, top))
      | inr k ↦ inr (omega (arith, k, top))
    ]
beyond x (y ∷ z ∷ t) h l n =
    let same = ap (λ s. above s (y ∷ z ∷ t)) (sign-cons x y (z ∷ t)) in
    elim (beyond y (z ∷ t) h.1 (omega arith) n) [
      | inl k ↦ inl (omega (arith, k, same))
      | inr k ↦ inr (omega (arith, k, same, h.0))
    ]

needed-take-IsNormal :
    (t : List ℕ) (l : ℕ)
    → suc l < length t
    → is_needed (get_or t (suc l) 0) (get_or t l 0) ≡ true
    → IsNormal (take (suc (suc l)) t)
needed-take-IsNormal [] l h e = absurd (omega arith)
needed-take-IsNormal (x ∷ []) l h e = absurd (omega arith)
needed-take-IsNormal (x ∷ y ∷ t) zero h e = e
needed-take-IsNormal (x ∷ y ∷ []) (suc l) h e = absurd (omega arith)
needed-take-IsNormal (x ∷ y ∷ z ∷ t) (suc l) h e =
    needed-take-IsNormal (y ∷ z ∷ t) l (omega arith) e

normalize_loop-IsNormal :
    (t : List ℕ) (l : ℕ) → l ≤ length t → IsNormal (take (normalize_loop t l) t)
unfolding normalize_loop
normalize_loop-IsNormal t zero h = tt
normalize_loop-IsNormal [] (suc zero) h = tt
normalize_loop-IsNormal (x ∷ t) (suc zero) h = tt
normalize_loop-IsNormal t (suc (suc l)) h =
    elim (Bool-cases (is_needed (get_or t (suc l) 0) (get_or t l 0))) [
      | inl e ↦ rw e (needed-take-IsNormal t l h e)
      | inr e ↦ rw e (normalize_loop-IsNormal t (suc l) (omega arith))
    ]

pub normalize-IsNormal : (t : List ℕ) → IsNormal (normalize t)
unfolding normalize normalize1
normalize-IsNormal t = normalize_loop-IsNormal t (length t) (omega arith)

List-cases : (xs : List ℕ) → (xs ≡ []) ⊎ ((x : ℕ) × (ys : List ℕ) × (xs ≡ x ∷ ys))
List-cases [] = inl refl
List-cases (x ∷ xs) = inr (x, xs, refl)

-- Fewer limbs do not reach.
shorter_lem :
    (x : ℕ) (u w : List ℕ)
    → IsLimbs (x ∷ u)
    → IsLimbs w
    → 0 < length w
    → IsNormal (x ∷ u)
    → integer (x ∷ u) ≡ integer w
    → length u < length w
unfolding integer
shorter_lem x [] w h k pos n e = pos
shorter_lem x (y ∷ u) w h k pos n e = elim (dec_lt (length (y ∷ u)) (length w)) [
  | yes lt ↦ lt
  | no ge ↦
      let grown = bound-le (length w) (length (y ∷ u)) (omega arith) in
      let near = within w k pos in
      let far = beyond x (y ∷ u) h (omega arith) n in
      let t : List ℕ = x ∷ y ∷ u in
      let t_parts = sub_ℕ_parts (value t) (above (sign t) t) in
      let w_parts = sub_ℕ_parts (value w) (above (sign w) w) in
      let p = ap pos_part e in
      let q = ap neg_part e in
      elim far [
        | inl f ↦ absurd (omega (arith, f, near.0, grown, t_parts, w_parts, p, q))
        | inr f ↦ absurd (omega (arith, f, near.1, grown, t_parts, w_parts, p, q))
      ]
]

-- For a `JSBigInt` with at least one limb, every array of at least one limb that stands for the same
-- integer has at least as many limbs as `js_bigint_normalize` leaves.
pub normalize_minimal :
    (t w : List ℕ)
    → IsLimbs t
    → 0 < length t
    → IsLimbs w
    → 0 < length w
    → integer w ≡ integer t
    → length (normalize t) ≤ length w
normalize_minimal t w h pos k some e =
    let kept = normalize-integer t h pos in
    elim (List-cases (normalize t)) [
      | inl none ↦ absurd (omega (arith, kept.2, ap length none))
      | inr (x, u, cons) ↦
          let least =
            shorter_lem x u w (subst IsLimbs cons kept.1) k some
              (subst IsNormal cons (normalize-IsNormal t))
              (ap integer (sym cons) ∙ kept.0 ∙ sym e) in
          omega (arith, ap length cons, least)
    ]
