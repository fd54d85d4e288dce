-- ===== src/BigInt/Power/Integers.antt =====
-- Powers of integers.
use ggjs.Common.{ℕ, zero, suc, ◌+◌, ◌*◌, ◌≡◌, refl, ap, sym, ◌∙◌, arith}
use ggjs.Common.Int.{ℤ, pos, sub_ℕ, sub_ℕ_ext, pos_part, neg_part, ◌*ℤ◌}
use ggjs.BigInt.Multiply.Wrap.{sub_ℕ-mul-sub_ℕ}

infixr 75 ◌^ℤ◌
unfoldable pub ◌^ℤ◌ : ℤ → ℕ → ℤ
z ^ℤ zero = pos 1
z ^ℤ suc n = (z ^ℤ n) *ℤ z

parts : (z : ℤ) → z ≡ sub_ℕ (pos_part z) (neg_part z)
parts z = ground arith

assoc_lem :
    (a b c d e f : ℕ) → sub_ℕ a b *ℤ sub_ℕ c d *ℤ sub_ℕ e f ≡ sub_ℕ a b *ℤ (sub_ℕ c d *ℤ sub_ℕ e f)
assoc_lem a b c d e f =
    let left = ap (λ t. t *ℤ sub_ℕ e f) (sub_ℕ-mul-sub_ℕ a b c d) in
    let right = ap (λ t. sub_ℕ a b *ℤ t) (sub_ℕ-mul-sub_ℕ c d e f) in
    let left' = sub_ℕ-mul-sub_ℕ (a * c + b * d) (a * d + b * c) e f in
    let right' = sub_ℕ-mul-sub_ℕ a b (c * e + d * f) (c * f + d * e) in
    left ∙ left' ∙ sub_ℕ_ext _ _ _ _ (omega arith) ∙ sym right' ∙ sym right

pub *ℤ_assoc : (x y z : ℤ) → x *ℤ y *ℤ z ≡ x *ℤ (y *ℤ z)
*ℤ_assoc x y z =
    ap (λ t. t *ℤ y *ℤ z) (parts x)
    ∙ ap (λ t. sub_ℕ (pos_part x) (neg_part x) *ℤ t *ℤ z) (parts y)
    ∙ ap (λ t. sub_ℕ (pos_part x) (neg_part x) *ℤ sub_ℕ (pos_part y) (neg_part y) *ℤ t) (parts z)
    ∙ assoc_lem (pos_part x) (neg_part x) (pos_part y) (neg_part y) (pos_part z) (neg_part z)
    ∙ sym (
        ap (λ t. t *ℤ (y *ℤ z)) (parts x)
        ∙ ap (λ t. sub_ℕ (pos_part x) (neg_part x) *ℤ (t *ℤ z)) (parts y)
        ∙ ap (λ t. sub_ℕ (pos_part x) (neg_part x) *ℤ (sub_ℕ (pos_part y) (neg_part y) *ℤ t))
            (parts z))

pub *ℤ_one : (x : ℤ) → x *ℤ pos 1 ≡ x
*ℤ_one x =
    ap (λ t. t *ℤ pos 1) (parts x)
    ∙ sub_ℕ-mul-sub_ℕ (pos_part x) (neg_part x) 1 0
    ∙ sub_ℕ_ext _ _ _ _ (omega arith)
    ∙ sym (parts x)

pub ^ℤ-add : (z : ℤ) (m n : ℕ) → z ^ℤ (m + n) ≡ (z ^ℤ m) *ℤ (z ^ℤ n)
unfolding ◌^ℤ◌
^ℤ-add z m zero = let e : m + 0 ≡ m = omega arith in ap (λ k. z ^ℤ k) e ∙ sym (*ℤ_one (z ^ℤ m))
^ℤ-add z m (suc n) =
    let e : m + suc n ≡ suc (m + n) = omega arith in
    ap (λ k. z ^ℤ k) e ∙ ap (λ t. t *ℤ z) (^ℤ-add z m n) ∙ *ℤ_assoc (z ^ℤ m) (z ^ℤ n) z

pub one-*ℤ : (x : ℤ) → pos 1 *ℤ x ≡ x
one-*ℤ x =
    ap (λ t. pos 1 *ℤ t) (parts x)
    ∙ sub_ℕ-mul-sub_ℕ 1 0 (pos_part x) (neg_part x)
    ∙ sub_ℕ_ext _ _ _ _ (omega arith)
    ∙ sym (parts x)

pub ^ℤ-one : (x : ℤ) → x ^ℤ 1 ≡ x
unfolding ◌^ℤ◌
^ℤ-one x = one-*ℤ x

pub ^ℤ-suc : (x : ℤ) (n : ℕ) → x ^ℤ suc n ≡ (x ^ℤ n) *ℤ x
unfolding ◌^ℤ◌
^ℤ-suc x n = refl
