-- ===== src/BigInt/Compare/Examples.antt =====
-- A negative integer of two limbs and one of one limb.
use ggjs.Common.{ℕ, ◌-◌, ◌≡◌, refl, List, [], ◌∷◌, arith}
use ggjs.BigInt.Limb.{base}
use ggjs.BigInt.Repr.{integer}
use ggjs.BigInt.Compare.{js_bigint_cmp}
use ggjs.BigInt.Compare.Order.{order, js_bigint_cmp-order}

abbrev lower : List ℕ
lower = 7 ∷ (base - 2) ∷ []

abbrev higher : List ℕ
higher = (base - 1) ∷ []

js_bigint_cmp-order_example : js_bigint_cmp lower higher ≡ order (integer lower) (integer higher)
js_bigint_cmp-order_example =
    js_bigint_cmp-order lower higher ((omega arith, (omega arith, tt)), omega arith)
      ((omega arith, tt), omega arith) refl tt
