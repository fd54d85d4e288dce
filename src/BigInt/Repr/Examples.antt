-- ===== src/BigInt/Repr/Examples.antt =====
-- Normalisation at small arrays.
use ggjs.Common.{ℕ, ◌-◌, ◌<◌, ◌≤◌, ◌≡◌, refl, List, [], ◌∷◌, length, arith}
use ggjs.BigInt.Limb.{base, IsLimbs}
use ggjs.BigInt.Repr.{integer, normalize, normalize1, normalize_loop}
use ggjs.BigInt.Repr.Minimal.{normalize_minimal}
use ggjs.BigInt.Repr.Normal.{normalize-integer}

abbrev top : ℕ
top = base - 1

-- -1 in two limbs.
abbrev minus_one : List ℕ
minus_one = top ∷ top ∷ []

minus_one-IsLimbs : IsLimbs minus_one
minus_one-IsLimbs = omega arith

normalize-minus_one : normalize minus_one ≡ top ∷ []
unfolding normalize normalize1 normalize_loop
normalize-minus_one = refl

normalize-integer_example :
    (integer (normalize minus_one) ≡ integer minus_one)
    × IsLimbs (normalize minus_one)
    × (0 < length (normalize minus_one))
    × (length (normalize minus_one) ≤ 2)
normalize-integer_example = normalize-integer minus_one minus_one-IsLimbs (omega arith)

normalize_minimal_example : length (normalize minus_one) ≤ 2
normalize_minimal_example =
    normalize_minimal minus_one minus_one minus_one-IsLimbs (omega arith) minus_one-IsLimbs
      (omega arith) refl
