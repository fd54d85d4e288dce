-- ===== src/BigInt/Limb.antt =====
-- Limbs (`js_limb_t`), their arrays, and the number that an array stands for.
use ggjs.Common.{
  suc, ap, refl, length, ◌≡◌, ℕ, ◌+◌, ◌*◌, ◌^◌, ◌%◌, ◌<◌, Bool, true, false, List, [], ◌∷◌,
}

-- JS_LIMB_BITS
abbrev pub limb_bits : ℕ
limb_bits = 64

-- One more than the largest `js_limb_t`.
abbrev pub base : ℕ
base = 2 ^ limb_bits

-- A conversion to `js_limb_t`.
abbrev pub limb : ℕ → ℕ
limb n = n % base

-- A conversion to `js_dlimb_t`.
abbrev pub dlimb : ℕ → ℕ
dlimb n = n % 2 ^ 128

-- The `int` that a C comparison yields.
abbrev pub to_int : Bool → ℕ
to_int true = 1
to_int false = 0

-- The number that an array of limbs stands for, the lowest limb first.
unfoldable pub value : List ℕ → ℕ
value [] = 0
value (x ∷ xs) = x + base * value xs

abbrev pub IsLimbs : List ℕ → Type 0
IsLimbs [] = Unit {0}
IsLimbs (x ∷ xs) = (x < base) × IsLimbs xs

-- The limbs that a loop wrote, and the limb that it returns.
pub record Carried : Type 0 where
  pub limbs : List ℕ
  pub carry : ℕ

abbrev pub carried : List ℕ → ℕ → Carried
carried rs c = record { limbs = rs; carry = c }

-- An array with one limb more on top.
unfoldable pub snoc : List ℕ → ℕ → List ℕ
snoc [] y = y ∷ []
snoc (x ∷ xs) y = x ∷ snoc xs y

-- What the array and the returned limb stand for together.
abbrev pub total : Carried → ℕ
total r = value (snoc r.limbs r.carry)

pub length-snoc : (xs : List ℕ) (y : ℕ) → length (snoc xs y) ≡ suc (length xs)
unfolding snoc
length-snoc [] y = refl
length-snoc (x ∷ xs) y = ap suc (length-snoc xs y)

pub snoc-IsLimbs : (xs : List ℕ) (y : ℕ) → IsLimbs xs → y < base → IsLimbs (snoc xs y)
unfolding snoc
snoc-IsLimbs [] y h k = (k, tt)
snoc-IsLimbs (x ∷ xs) y h k = (h.0, snoc-IsLimbs xs y h.1 k)
