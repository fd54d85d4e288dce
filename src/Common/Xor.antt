-- ===== src/Common/Xor.antt =====
-- Laws of the exclusive or and of the other Boolean operations.
use ggjs.Common.Tests.{xor}
use mathlib.Core.Path.{◌≡◌, refl, ap, ◌∙◌}
use mathlib.Core.Bool.{Bool, true, false, not, ◌&&◌, ◌||◌}

pub xor-not : (a b : Bool) → xor a (not b) ≡ xor (not a) b
xor-not true true = refl
xor-not true false = refl
xor-not false true = refl
xor-not false false = refl

pub xor-false : (b : Bool) → xor b false ≡ b
xor-false true = refl
xor-false false = refl

pub xor-true : (b : Bool) → xor true b ≡ not b
xor-true true = refl
xor-true false = refl

pub xor-true-not : (x y : Bool) → xor y x ≡ true → not x ≡ y
xor-true-not true true h = absurd (cc)
xor-true-not true false h = refl
xor-true-not false true h = refl
xor-true-not false false h = absurd (cc)

pub xor-false-same : (x y : Bool) → xor y x ≡ false → x ≡ y
xor-false-same true true h = refl
xor-false-same true false h = absurd (cc)
xor-false-same false true h = absurd (cc)
xor-false-same false false h = refl

pub and-true : (b : Bool) → (b && true) ≡ b
and-true true = refl
and-true false = refl

pub and-false : (b : Bool) → (b && false) ≡ false
and-false true = refl
and-false false = refl

pub xor-passed : (p x y z : Bool) → xor (xor p (xor y x)) (xor y z) ≡ xor p (xor x z)
xor-passed true true true true = refl
xor-passed true true true false = refl
xor-passed true true false true = refl
xor-passed true true false false = refl
xor-passed true false true true = refl
xor-passed true false true false = refl
xor-passed true false false true = refl
xor-passed true false false false = refl
xor-passed false true true true = refl
xor-passed false true true false = refl
xor-passed false true false true = refl
xor-passed false true false false = refl
xor-passed false false true true = refl
xor-passed false false true false = refl
xor-passed false false false true = refl
xor-passed false false false false = refl

pub xor_self : (b : Bool) → xor b b ≡ false
xor_self true = refl
xor_self false = refl

pub xor-xor_self : (p b : Bool) → xor p (xor b b) ≡ p
xor-xor_self p b = ap (xor p) (xor_self b) ∙ xor-false p

pub not-not : (b : Bool) → not (not b) ≡ b
not-not true = refl
not-not false = refl

pub xor-twice : (a b : Bool) → xor a (xor a b) ≡ b
xor-twice true true = refl
xor-twice true false = refl
xor-twice false b = refl

pub or-false : (b : Bool) → (b || false) ≡ b
or-false true = refl
or-false false = refl
