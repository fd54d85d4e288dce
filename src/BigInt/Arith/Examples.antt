-- ===== src/BigInt/Arith/Examples.antt =====
-- BigInt operations at small integers.
use ggjs.Common.{ℕ, ◌-◌, ◌≡◌, refl, true, List, [], ◌∷◌, arith}
use ggjs.Common.Int.{◌-ℤ◌}
use ggjs.BigInt.Limb.{base}
use ggjs.BigInt.Repr.{integer}
use ggjs.BigInt.Arith.{Memory, big, js_bigint_add}
use ggjs.BigInt.Arith.Extend.{IsBig}
use ggjs.BigInt.Arith.Add.{js_bigint_add-integer}

abbrev top : ℕ
top = base - 1

abbrev two : List ℕ
two = top ∷ 5 ∷ []

-- -1 in two limbs.
abbrev minus_one : List ℕ
minus_one = top ∷ top ∷ []

abbrev plenty : Memory
plenty = record { malloc = λ n. true; realloc = λ n. true }

js_bigint_add-integer_example :
    (t : List ℕ) × (js_bigint_add plenty two minus_one 1 ≡ big t)
    × (integer t ≡ integer two -ℤ integer minus_one)
    × IsBig t
js_bigint_add-integer_example =
    js_bigint_add-integer plenty two minus_one 1 (omega arith) (omega arith) (omega arith)
      (omega arith) refl refl
