-- ===== src/Common/Bits/Digit.antt =====
-- The lowest binary digit of `&` and `|`, from the digit recursion that the native operations mean.
use Prim.Native.Nat.{
  ℕ, zero, suc, ◌+◌, ◌*◌, ◌/◌, ◌%◌, ◌≤◌, min, max, bit_and, bit_or, bit_xor, differ, digits,
  bit_and-bitwise, bit_or-bitwise, bit_xor-bitwise,
}
use mathlib.Core.Path.{◌≡◌, refl}
use native.Mathlib.Omega.{arith}

module _ (rest : ℕ → ℕ) (op : ℕ → ℕ → ℕ) where
  -- More fuel than the first operand changes nothing.
  same_run :
      (a b f g : ℕ) (low : a ≤ f) (high : a ≤ g) → digits rest op f a b ≡ digits rest op g a b
  same_run zero b zero zero low high = refl
  same_run zero b zero (suc g) low high = refl
  same_run zero b (suc f) zero low high = refl
  same_run zero b (suc f) (suc g) low high = refl
  same_run (suc a) b zero g low high = absurd (omega arith)
  same_run (suc a) b (suc f) zero low high = absurd (omega arith)
  same_run (suc a) b (suc f) (suc g) low high =
      let half : suc a / 2 ≤ a = omega arith in
      let ih = same_run (suc a / 2) (b / 2) f g (omega arith) (omega arith) in omega (arith, ih)

pub bit_and-halves : (a b : ℕ) → bit_and a b ≡ bit_and (a / 2) (b / 2) * 2 + min (a % 2) (b % 2)
bit_and-halves zero b = omega (arith, bit_and-bitwise 0 b, bit_and-bitwise 0 (b / 2))
bit_and-halves (suc a) b =
    let h : suc a / 2 ≤ a = omega arith in
    omega (
      arith,
      bit_and-bitwise (suc a) b,
      bit_and-bitwise (suc a / 2) (b / 2),
      same_run (λ y. 0) min (suc a / 2) (b / 2) a (suc a / 2) h (omega arith),
    )

pub bit_or-halves : (a b : ℕ) → bit_or a b ≡ bit_or (a / 2) (b / 2) * 2 + max (a % 2) (b % 2)
bit_or-halves zero b = omega (arith, bit_or-bitwise 0 b, bit_or-bitwise 0 (b / 2))
bit_or-halves (suc a) b =
    let h : suc a / 2 ≤ a = omega arith in
    omega (
      arith,
      bit_or-bitwise (suc a) b,
      bit_or-bitwise (suc a / 2) (b / 2),
      same_run (λ y. y) max (suc a / 2) (b / 2) a (suc a / 2) h (omega arith),
    )

pub bit_xor-halves : (a b : ℕ) → bit_xor a b ≡ bit_xor (a / 2) (b / 2) * 2 + differ (a % 2) (b % 2)
bit_xor-halves zero b = omega (arith, bit_xor-bitwise 0 b, bit_xor-bitwise 0 (b / 2))
bit_xor-halves (suc a) b =
    let h : suc a / 2 ≤ a = omega arith in
    omega (
      arith,
      bit_xor-bitwise (suc a) b,
      bit_xor-bitwise (suc a / 2) (b / 2),
      same_run (λ y. y) differ (suc a / 2) (b / 2) a (suc a / 2) h (omega arith),
    )
