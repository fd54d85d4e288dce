-- ===== src/BigInt/Arith/Extend.antt =====
-- `js_bigint_extend` of quickjs.c: the limb above the array is stored or says nothing.
use ggjs.Common.{
  ℕ, ◌+◌, ◌-◌, ◌/◌, ◌^◌, ◌<◌, ◌≡◌, refl, ◌∙◌, sym, inl, inr, true, List, length, get_or, arith,
  Bool-cases,
}
use ggjs.BigInt.Limb.{base, snoc, IsLimbs, length-snoc, snoc-IsLimbs}
use ggjs.BigInt.Repr.{sign, integer, is_needed, normalize}
use ggjs.BigInt.Repr.Extend.{integer-snoc}
use ggjs.BigInt.Repr.Take.{get_or-lt}
use ggjs.BigInt.Repr.Normal.{not_needed, normalize-integer}
use ggjs.BigInt.Arith.{Memory, big, extend}

top-sign : (r : List ℕ) → get_or r (length r - 1) 0 / 2 ^ 63 ≡ sign r
unfolding sign
top-sign r = refl

-- What a run leaves: a `JSBigInt` with at least one limb.
abbrev pub IsBig : List ℕ → Type 0
IsBig t = IsLimbs t × (0 < length t)

-- If the memory for one limb more is granted, `js_bigint_extend` returns an array that stands for
-- the integer of the operand with the limb on top.
pub extend-integer :
    (mem : Memory) (r : List ℕ) (op1 : ℕ)
    → IsBig r
    → op1 < base
    → mem.realloc (length r + 1) ≡ true
    → (t : List ℕ) × (extend mem r op1 ≡ big t) × (integer t ≡ integer (snoc r op1)) × IsBig t
unfolding extend
extend-integer mem r op1 hr ho granted =
    let last = get_or r (length r - 1) 0 in
    elim (Bool-cases (is_needed op1 last)) [
      | inl e ↦ (
        snoc r op1,
        rw (e, granted) refl,
        refl,
        (snoc-IsLimbs r op1 hr.0 ho, omega (arith, length-snoc r op1)),
      )
      | inr e ↦
          let n = normalize-integer r hr.0 hr.1 in
          let same = not_needed op1 last ho (get_or-lt r (length r - 1) hr.0) e in
          let keep = integer-snoc r op1 ho (rw (← top-sign r) same.0) (rw (← top-sign r) same.1) in
          (normalize r, rw e refl, n.0 ∙ sym keep, (n.1, n.2))
    ]
