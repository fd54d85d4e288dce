-- ===== src/BigInt/Convert/Not.antt =====
-- `js_bigint_not` is -1 less the integer.
use ggjs.Common.{
  ℕ, zero, suc, ◌+◌, ◌-◌, ◌*◌, ◌/◌, ◌^◌, ◌≤◌, ◌<◌, ◌≡◌, refl, ap, ◌∙◌, true, List, [], ◌∷◌, length,
  get_or, map, arith, length-map,
}
use ggjs.Common.Int.{negsuc, ◌-ℤ◌, -ℤ_parts, eq_of_parts, sub_ℕ_parts}
use ggjs.BigInt.Limb.{base, IsLimbs, value}
use ggjs.BigInt.Repr.{sign, above, integer, ones}
use ggjs.BigInt.Repr.Extend.{above_add}
use ggjs.BigInt.Repr.Take.{get_or-lt}
use ggjs.BigInt.Arith.{Memory, big, max_size}
use ggjs.BigInt.Arith.Carry.{flip-one, flip-lt, value-flip_one}
use ggjs.BigInt.Arith.Extend.{IsBig}
use ggjs.BigInt.Arith.Add.{with_new-granted, sign-le_one}
use ggjs.BigInt.Convert.{complement, js_bigint_not}

get_or-map :
    (f : ℕ → ℕ) (t : List ℕ) (i : ℕ) → i < length t → get_or (map f t) i 0 ≡ f (get_or t i 0)
get_or-map f [] i h = absurd (omega arith)
get_or-map f (x ∷ xs) zero h = refl
get_or-map f (x ∷ xs) (suc i) h = get_or-map f xs i (omega arith)

above-map : (f : ℕ → ℕ) (s : ℕ) (t : List ℕ) → above s (map f t) ≡ above s t
unfolding above
above-map f s [] = refl
above-map f s (x ∷ xs) = ap (λ n. base * n) (above-map f s xs)

complement-IsLimbs : (t : List ℕ) → IsLimbs t → IsLimbs (map complement t)
complement-IsLimbs [] h = tt
complement-IsLimbs (x ∷ xs) h = (flip-lt 1 x (omega arith) h.0, complement-IsLimbs xs h.1)

sign-complement : (t : List ℕ) → IsBig t → sign (map complement t) ≡ 1 - sign t
unfolding sign
sign-complement t h =
    let top : ℕ = get_or t (length t - 1) 0 in
    let small = get_or-lt t (length t - 1) h.0 in
    let at : get_or (map complement t) (length t - 1) 0 ≡ ones - top =
      get_or-map complement t (length t - 1) (omega (arith, h.1)) ∙ flip-one top small in
    ap (λ n. get_or (map complement t) (n - 1) 0 / 2 ^ 63) (length-map t complement)
    ∙ ap (λ n. n / 2 ^ 63) at
    ∙ omega arith

not_lem : (t : List ℕ) → IsBig t → integer (map complement t) ≡ negsuc 0 -ℤ integer t
unfolding integer
not_lem t h =
    let s = sign-le_one t h.0 in
    let flipped = sign-complement t h in
    let whole : above (1 - sign t + sign t) t ≡ above 1 t = ap (λ n. above n t) (omega arith) in
    let height : above (sign (map complement t)) (map complement t) ≡ above (1 - sign t) t =
      above-map complement (sign (map complement t)) t ∙ ap (λ n. above n t) flipped in
    eq_of_parts _ _ (
      omega (
        arith,
        height,
        whole,
        above_add (1 - sign t) (sign t) t,
        value-flip_one t h.0,
        -ℤ_parts (negsuc 0) (integer t),
        sub_ℕ_parts (value t) (above (sign t) t),
        sub_ℕ_parts (value (map complement t)) (above (sign (map complement t)) (map complement t)),
      ))

-- If the memory is granted and the operand is within JS_BIGINT_MAX_SIZE, `js_bigint_not` returns -1
-- less the integer of a `JSBigInt`, as a `JSBigInt` of as many limbs.
pub js_bigint_not-integer :
    (mem : Memory) (a : List ℕ)
    → IsBig a
    → length a ≤ max_size
    → mem.malloc (length a) ≡ true
    → (t : List ℕ) × (js_bigint_not mem a ≡ big t)
      × (integer t ≡ negsuc 0 -ℤ integer a)
      × IsBig t
      × (length t ≡ length a)
unfolding js_bigint_not
js_bigint_not-integer mem a h small granted = (
  map complement a,
  with_new-granted mem (length a) (big (map complement a)) small granted,
  not_lem a h,
  (complement-IsLimbs a h.0, omega (arith, h.1, length-map a complement)),
  length-map a complement,
)
