-- ===== src/Common/Bits/Each.antt =====
-- `&`, `|` and `^` work on each bit.
use Prim.Native.Nat.{
  ℕ, zero, suc, ◌+◌, ◌*◌, ◌/◌, ◌%◌, ◌^◌, ◌<◌, bit_and, bit_or, bit_xor, min, max, differ,
}
use mathlib.Core.Path.{◌≡◌, refl, ap, ap₂, sym, ◌∙◌}
use native.Mathlib.Nat.{pow-suc, div-div-eq-div-mul}
use native.Mathlib.Omega.{arith}
use ggjs.Common.Bits.Digit.{bit_and-halves, bit_or-halves, bit_xor-halves}

abbrev pub bit : (n k : ℕ) → ℕ
bit n k = n / 2 ^ k % 2

pub record IsBitwise (op : ℕ → ℕ → ℕ) : Type 0 where
  pub none : op 0 0 ≡ 0
  pub halves : (a b : ℕ) → op a b / 2 ≡ op (a / 2) (b / 2)
  pub low : (a b : ℕ) → op a b % 2 ≡ op (a % 2) (b % 2)

-- From an equation for the halves and the last bits.
from_halves :
    (op f : ℕ → ℕ → ℕ)
    → op 0 0 ≡ 0
    → ((x y : ℕ) → x < 2 → y < 2 → f x y < 2)
    → ((a b : ℕ) → op a b ≡ op (a / 2) (b / 2) * 2 + f (a % 2) (b % 2))
    → IsBitwise op
from_halves op f none small each = record {
  none = none;
  halves = λ a b. omega (arith, each a b, small (a % 2) (b % 2) (omega arith) (omega arith));
  low = λ a b.
      let x : a % 2 / 2 ≡ 0 = omega arith in
      let y : b % 2 / 2 ≡ 0 = omega arith in
      let x' : a % 2 % 2 ≡ a % 2 = omega arith in
      let y' : b % 2 % 2 ≡ b % 2 = omega arith in
      let last : op (a % 2) (b % 2) ≡ op 0 0 * 2 + f (a % 2) (b % 2) =
        rw (x, y, x', y') at (each (a % 2) (b % 2)) in
      omega (arith, each a b, last, none, small (a % 2) (b % 2) (omega arith) (omega arith));
}

pub bit_and-IsBitwise : IsBitwise bit_and
bit_and-IsBitwise = from_halves bit_and min refl (λ x y h k. omega arith) bit_and-halves

pub bit_or-IsBitwise : IsBitwise bit_or
bit_or-IsBitwise = from_halves bit_or max refl (λ x y h k. omega arith) bit_or-halves

differ-lt : (x y : ℕ) → x < 2 → y < 2 → differ x y < 2
differ-lt zero zero h k = omega arith
differ-lt zero (suc zero) h k = omega arith
differ-lt (suc zero) zero h k = omega arith
differ-lt (suc zero) (suc zero) h k = omega arith
differ-lt (suc (suc x)) y h k = absurd (omega arith)
differ-lt x (suc (suc y)) h k = absurd (omega arith)

pub bit_xor-IsBitwise : IsBitwise bit_xor
bit_xor-IsBitwise = from_halves bit_xor differ refl differ-lt bit_xor-halves

half_bit : (k n : ℕ) → bit n (suc k) ≡ bit (n / 2) k
half_bit k n =
    let e : 2 ^ suc k ≡ 2 * 2 ^ k = omega (arith, pow-suc 2 k) in
    ap (λ p. n / p % 2) e ∙ ap (λ q. q % 2) (sym (div-div-eq-div-mul n 2 (2 ^ k)))

module _ (op : ℕ → ℕ → ℕ) (o : IsBitwise op) where
  pub bit-op : (k a b : ℕ) → bit (op a b) k ≡ op (bit a k) (bit b k)
  bit-op zero a b =
      let x : a / 1 ≡ a = omega arith in
      let y : b / 1 ≡ b = omega arith in
      let z : op a b / 1 ≡ op a b = omega arith in rw (x, y, z) (o.low a b)
  bit-op (suc k) a b =
      half_bit k (op a b)
      ∙ ap (λ n. bit n k) (o.halves a b)
      ∙ bit-op k (a / 2) (b / 2)
      ∙ sym (ap₂ op (half_bit k a) (half_bit k b))

  pub op-lt : (k a b : ℕ) → a < 2 ^ k → b < 2 ^ k → op a b < 2 ^ k
  op-lt zero a b h l =
      let x : a ≡ 0 = omega arith in let y : b ≡ 0 = omega arith in rw (x, y, o.none) (omega arith)
  op-lt (suc k) a b h l =
      let p = pow-suc 2 k in
      omega (arith, p, o.halves a b, op-lt k (a / 2) (b / 2) (omega (arith, p)) (omega (arith, p)))
