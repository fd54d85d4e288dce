-- ===== src/BigInt/Convert/New.antt =====
-- A new `JSBigInt` for a word stands for the integer that the word stands for.
use ggjs.Common.{
  ℕ, ◌+◌, ◌-◌, ◌*◌, ◌/◌, ◌^◌, ◌<◌, ◌≡◌, ap, ◌∙◌, true, List, [], ◌∷◌, leb, ◌==◌, arith, Bool-cases,
  inl, inr,
}
use ggjs.Common.Int.{ℤ, pos, sub_ℕ, sub_ℕ_ext}
use ggjs.BigInt.Limb.{base, limb, value}
use ggjs.BigInt.Repr.{sign, above, integer}
use ggjs.BigInt.Arith.{Memory, big}
use ggjs.BigInt.Arith.Extend.{IsBig}
use ggjs.BigInt.Arith.Add.{with_new-granted}
use ggjs.BigInt.Convert.{
  js_bigint_new_si, js_bigint_new_si64, js_bigint_new_ui64, js_bigint_new_di, widened,
}

-- The integer of a word of `bits` bits in two's complement.
abbrev pub signed : (bits n : ℕ) → ℤ
signed bits n = sub_ℕ n (n / 2 ^ (bits - 1) * 2 ^ bits)

pub integer_one : (a : ℕ) → integer (a ∷ []) ≡ signed 64 a
unfolding integer value above sign
integer_one a = sub_ℕ_ext _ _ _ _ (omega arith)

integer_two : (a b : ℕ) → a < base → b < base → integer (a ∷ b ∷ []) ≡ signed 128 (a + b * base)
unfolding integer value above sign
integer_two a b h k = sub_ℕ_ext _ _ _ _ (omega arith)

pub js_bigint_new_si-granted :
    (mem : Memory) (a : ℕ) → mem.malloc 1 ≡ true → js_bigint_new_si mem a ≡ big (a ∷ [])
unfolding js_bigint_new_si
js_bigint_new_si-granted mem a h = with_new-granted mem 1 (big (a ∷ [])) (omega arith) h

-- If the memory is granted, `js_bigint_new_ui64` returns a `JSBigInt` for an unsigned word.
pub js_bigint_new_ui64-integer :
    (mem : Memory) (a : ℕ)
    → a < 2 ^ 64
    → mem.malloc 1 ≡ true
    → mem.malloc 2 ≡ true
    → (t : List ℕ) × (js_bigint_new_ui64 mem a ≡ big t) × (integer t ≡ pos a) × IsBig t
unfolding js_bigint_new_ui64 js_bigint_new_si64 js_bigint_new_si
js_bigint_new_ui64-integer mem a h one two = elim (Bool-cases (leb a (2 ^ 63 - 1))) [
  | inl e ↦ rw e (
    a ∷ [],
    with_new-granted mem 1 (big (a ∷ [])) (omega arith) one,
    integer_one a ∙ ground arith,
    ((omega arith, tt), omega arith),
  )
  | inr e ↦ rw e (
    a ∷ 0 ∷ [],
    with_new-granted mem 2 (big (a ∷ 0 ∷ [])) (omega arith) two,
    integer_two a 0 (omega arith) (omega arith) ∙ ground arith,
    ((omega arith, (omega arith, tt)), omega arith),
  )
]

narrow :
    (a : ℕ)
    → a < 2 ^ 128
    → (a == widened (limb a)) ≡ true
    → limb a + a / 2 ^ 127 * 2 ^ 128 ≡ a + limb a / 2 ^ 63 * 2 ^ 64
narrow a h e = ground arith

-- If the memory is granted, `js_bigint_new_di` returns a `JSBigInt` for a signed word of two limbs.
pub js_bigint_new_di-integer :
    (mem : Memory) (a : ℕ)
    → a < 2 ^ 128
    → mem.malloc 1 ≡ true
    → mem.malloc 2 ≡ true
    → (t : List ℕ) × (js_bigint_new_di mem a ≡ big t) × (integer t ≡ signed 128 a) × IsBig t
unfolding js_bigint_new_di
js_bigint_new_di-integer mem a h one two = elim (Bool-cases (a == widened (limb a))) [
  | inl e ↦ rw e (
    limb a ∷ [],
    with_new-granted mem 1 (big (limb a ∷ [])) (omega arith) one,
    integer_one (limb a) ∙ sub_ℕ_ext _ _ _ _ (narrow a h e),
    ((omega arith, tt), omega arith),
  )
  | inr e ↦ rw e (
    limb a ∷ limb (a / base) ∷ [],
    with_new-granted mem 2 (big (limb a ∷ limb (a / base) ∷ [])) (omega arith) two,
    integer_two (limb a) (limb (a / base)) (omega arith) (omega arith)
        ∙ ap (signed 128) (omega arith),
    ((omega arith, (omega arith, tt)), omega arith),
  )
]
