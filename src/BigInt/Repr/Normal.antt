-- ===== src/BigInt/Repr/Normal.antt =====
-- `js_bigint_normalize1` drops limbs that say nothing, and keeps the integer.
use ggjs.Common.{
  length-take_le, ℕ, zero, suc, ◌+◌, ◌*◌, ◌/◌, ◌^◌, ◌≤◌, ◌<◌, ◌≡◌, refl, ap, sym, ◌∙◌, inl, inr,
  false, List, length, get_or, take, arith, Bool-cases,
}
use ggjs.Common.Bits.{bit_and-low}
use ggjs.BigInt.Limb.{base, IsLimbs}
use ggjs.BigInt.Repr.{is_needed, integer, normalize_loop, normalize1, normalize}
use ggjs.BigInt.Repr.Extend.{integer-snoc}
use ggjs.BigInt.Repr.Take.{take-suc, take-length, take-IsLimbs, get_or-lt, sign-take}

-- A limb that is not needed repeats the sign below it.
pub not_needed :
    (v below : ℕ)
    → v < base
    → below < base
    → is_needed v below ≡ false
    → (v + below / 2 ^ 63 ≡ base * (below / 2 ^ 63)) × (v / 2 ^ 63 ≡ below / 2 ^ 63)
not_needed v below hv hb h = ground (arith, bit_and-low 1 v)

integer-take-suc :
    (t : List ℕ) (l : ℕ)
    → IsLimbs t
    → suc l < length t
    → is_needed (get_or t (suc l) 0) (get_or t l 0) ≡ false
    → integer (take (suc (suc l)) t) ≡ integer (take (suc l) t)
integer-take-suc t l ht hl h =
    let v = get_or t (suc l) 0 in
    let s = sign-take l t (omega arith) in
    let same = not_needed v (get_or t l 0) (get_or-lt t (suc l) ht) (get_or-lt t l ht) h in
    rw (take-suc (suc l) t hl)
      (integer-snoc (take (suc l) t) v (get_or-lt t (suc l) ht) (rw s same.0) (rw s same.1))

normalize_loop-integer :
    (t : List ℕ) (l : ℕ)
    → IsLimbs t
    → l ≤ length t
    → 0 < l
    → (integer (take (normalize_loop t l) t) ≡ integer (take l t))
      × (0 < normalize_loop t l)
      × (normalize_loop t l ≤ l)
unfolding normalize_loop
normalize_loop-integer t zero ht hl pos = absurd (omega arith)
normalize_loop-integer t (suc zero) ht hl pos = (refl, omega arith, omega arith)
normalize_loop-integer t (suc (suc l)) ht hl pos =
    elim (Bool-cases (is_needed (get_or t (suc l) 0) (get_or t l 0))) [
      | inl e ↦ rw e (refl, omega arith, omega arith)
      | inr e ↦
          let ih = normalize_loop-integer t (suc l) ht (omega arith) (omega arith) in
          rw e (ih.0 ∙ sym (integer-take-suc t l ht hl e), ih.1, omega (arith, ih.2))
    ]

-- For a `JSBigInt` with at least one limb `js_bigint_normalize` keeps the integer, leaves at least
-- one limb and no more than there were, and they are limbs.
pub normalize-integer :
    (t : List ℕ)
    → IsLimbs t
    → 0 < length t
    → (integer (normalize t) ≡ integer t)
      × IsLimbs (normalize t)
      × (0 < length (normalize t))
      × (length (normalize t) ≤ length t)
unfolding normalize normalize1
normalize-integer t ht pos =
    let r = normalize_loop-integer t (length t) ht (omega arith) pos in
    let n = length-take_le (normalize_loop t (length t)) t r.2 in
    (
      r.0 ∙ ap integer (take-length t),
      take-IsLimbs (normalize_loop t (length t)) t ht,
      omega (arith, n, r.1),
      omega (arith, n, r.2),
    )
