-- ===== src/Common/Bits.antt =====
-- Facts about `&`, `|` and `^` on unsigned words, which the libraries give at numerals only.
mod Digit
pub mod Each
use Digit.{bit_and-halves, bit_or-halves, bit_xor-halves}
use Prim.Native.Nat.{
  ℕ, zero, suc, ◌+◌, ◌-◌, ◌*◌, ◌/◌, ◌%◌, ◌^◌, ◌≤◌, ◌<◌, bit_and, bit_or, bit_or-bitwise, bit_xor,
  differ,
}
use mathlib.Core.Path.{◌≡◌, refl, ap}
use mathlib.Core.Bool.{false, Bool, true}
use native.Mathlib.Nat.{pow-suc, one-le-pow}
use native.Mathlib.Omega.{arith}
use ggjs.Common.Tests.{◌==◌, if◌then◌else◌}

-- A finite range is checked value by value, from the top down.
unfoldable pub checks : (ℕ → Bool) → ℕ → Bool
checks test zero = true
checks test (suc n) = if test n then checks test n else false

checks_each : (test : ℕ → Bool) (n x : ℕ) → x < n → checks test n ≡ true → test x ≡ true
unfolding checks
checks_each test zero x h c = elim h [ ]
checks_each test (suc n) x h c = ground (arith, checks_each test n x)

-- Two functions that agree on a finite range by evaluation.
pub agree_below :
    (n : ℕ) (f g : ℕ → ℕ) (x : ℕ) → checks (λ y. f y == g y) n ≡ true → x < n → f x ≡ g x
agree_below n f g x c h = ground (arith, checks_each (λ y. f y == g y) n x h c)

double-pow : (q k : ℕ) → q * 2 ^ suc k ≡ q * 2 ^ k + q * 2 ^ k
double-pow q k = omega (arith, ap (λ (t : ℕ). q * t) (pow-suc 2 k))

bit_and-none : (f a : ℕ) → a < f → bit_and a 0 ≡ 0
bit_and-none zero a h = absurd (omega arith)
bit_and-none (suc f) zero h = refl
bit_and-none (suc f) (suc a) h =
    omega (arith, bit_and-halves (suc a) 0, bit_and-none f (suc a / 2) (omega arith))

bit_or-none : (f a : ℕ) → a < f → bit_or a 0 ≡ a
bit_or-none zero a h = absurd (omega arith)
bit_or-none (suc f) zero h = refl
bit_or-none (suc f) (suc a) h =
    omega (arith, bit_or-halves (suc a) 0, bit_or-none f (suc a / 2) (omega arith))

bit_and-split : (k q r : ℕ) → r < 2 ^ k → bit_and (q * 2 ^ k + r) (2 ^ k - 1) ≡ r
bit_and-split zero q r h = ground (arith, bit_and-none (suc (q * 1 + r)) (q * 1 + r))
bit_and-split (suc k) q r h = ground (
  arith,
  bit_and-halves (q * 2 ^ suc k + r) (2 ^ suc k - 1),
  double-pow q k,
  pow-suc 2 k,
  one-le-pow k 2,
  bit_and-split k q (r / 2),
)

-- `a & ((1 << k) - 1)` is a remainder.
pub bit_and-low : (k a : ℕ) → bit_and a (2 ^ k - 1) ≡ a % 2 ^ k
bit_and-low k a = ground (arith, one-le-pow k 2, bit_and-split k (a / 2 ^ k) (a % 2 ^ k))

-- `(q << k) | r` is a sum when `r` has `k` bits.
pub bit_or-shifted : (k q r : ℕ) → r < 2 ^ k → bit_or (q * 2 ^ k) r ≡ q * 2 ^ k + r
bit_or-shifted zero q r h = ground (arith, bit_or-none (suc q) q)
bit_or-shifted (suc k) q r h = ground (
  arith,
  bit_or-halves (q * 2 ^ suc k) r,
  double-pow q k,
  pow-suc 2 k,
  bit_or-shifted k q (r / 2),
)

-- The same with the shifted operand on the right.
pub bit_or-below : (k q r : ℕ) → r < 2 ^ k → bit_or r (q * 2 ^ k) ≡ r + q * 2 ^ k
bit_or-below zero q r h = ground (arith, bit_or-bitwise 0 (q * 1))
bit_or-below (suc k) q r h =
    ground (
      arith,
      bit_or-halves r (q * 2 ^ suc k),
      double-pow q k,
      pow-suc 2 k,
      bit_or-below k q (r / 2),
    )

differ-nothing : (d : ℕ) → differ d 0 ≡ d
differ-nothing zero = refl
differ-nothing (suc d) = refl

bit_xor-none_fuel : (f a : ℕ) → a < f → bit_xor a 0 ≡ a
bit_xor-none_fuel zero a h = absurd (omega arith)
bit_xor-none_fuel (suc f) zero h = refl
bit_xor-none_fuel (suc f) (suc a) h = omega (
  arith,
  bit_xor-halves (suc a) 0,
  bit_xor-none_fuel f (suc a / 2) (omega arith),
  differ-nothing (suc a % 2),
)

pub bit_xor-zero : (a : ℕ) → bit_xor a 0 ≡ a
bit_xor-zero a = bit_xor-none_fuel (suc a) a (omega arith)

differ-one : (d : ℕ) → d < 2 → differ d 1 + d ≡ 1
differ-one zero h = refl
differ-one (suc zero) h = refl
differ-one (suc (suc d)) h = absurd (omega arith)

-- `a ^ ((1 << k) - 1)` is the complement in `k` bits.
pub bit_xor-ones : (k a : ℕ) → a < 2 ^ k → bit_xor a (2 ^ k - 1) ≡ 2 ^ k - 1 - a
bit_xor-ones zero a h = omega (arith, bit_xor-zero a)
bit_xor-ones (suc k) a h = ground (
  arith,
  bit_xor-halves a (2 ^ suc k - 1),
  pow-suc 2 k,
  one-le-pow k 2,
  bit_xor-ones k (a / 2),
  differ-one (a % 2),
)

-- What divides `a | b` divides both, for the powers of two to 16.
pub bit_or-even : (a b : ℕ) → bit_or a b % 2 ≡ 0 → (a % 2 ≡ 0) × (b % 2 ≡ 0)
bit_or-even a b h = (grind (arith, bit_or-halves a b), grind (arith, bit_or-halves a b))

pub bit_or-by_4 : (a b : ℕ) → bit_or a b % 4 ≡ 0 → (a % 4 ≡ 0) × (b % 4 ≡ 0)
bit_or-by_4 a b h =
    let e = bit_or-halves a b in
    let low = bit_or-even a b (omega arith) in
    let high = bit_or-even (a / 2) (b / 2) (omega arith) in
    (omega (arith, low.0, high.0), omega (arith, low.1, high.1))

pub bit_or-by_8 : (a b : ℕ) → bit_or a b % 8 ≡ 0 → (a % 8 ≡ 0) × (b % 8 ≡ 0)
bit_or-by_8 a b h =
    let e = bit_or-halves a b in
    let low = bit_or-even a b (omega arith) in
    let high = bit_or-by_4 (a / 2) (b / 2) (omega arith) in
    (omega (arith, low.0, high.0), omega (arith, low.1, high.1))

pub bit_or-by_16 : (a b : ℕ) → bit_or a b % 16 ≡ 0 → (a % 16 ≡ 0) × (b % 16 ≡ 0)
bit_or-by_16 a b h =
    let e = bit_or-halves a b in
    let low = bit_or-even a b (omega arith) in
    let high = bit_or-by_8 (a / 2) (b / 2) (omega arith) in
    (omega (arith, low.0, high.0), omega (arith, low.1, high.1))

pub le-bit_or : (k a : ℕ) → 2 ^ k ≤ bit_or a (2 ^ k)
le-bit_or zero a = omega (arith, bit_or-halves a 1)
le-bit_or (suc k) a =
    let e : 2 ^ suc k / 2 ≡ 2 ^ k = omega (arith, pow-suc 2 k) in
    let h = rw e at (bit_or-halves a (2 ^ suc k)) in omega (arith, pow-suc 2 k, le-bit_or k (a / 2))
